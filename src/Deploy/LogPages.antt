-- ===== src/Deploy/LogPages.antt =====
-- services/deploy_service.py, `list_logs`: the pages leave no record out.
use devops_cd.Prelude.{
  ℕ, zero, suc, String, List, [], ◌∷◌, ◌++◌, map, ◌≡◌, refl, ap, sym, ◌∙◌, length, ◌≤◌,
}
use mathlib.Core.Path.{subst}
use devops_cd.State.{State}
use devops_cd.Paging.{clamped_page}
use devops_cd.Paging.Cover.{Pages, first_pages, clamped_page-Pages}
use devops_cd.Deploy.Logs.{with_approval, log_rows, list_logs}

map-append {ℓ κ} :
    {A : Type ℓ} {B : Type κ} (g : A → B) (xs ys : List A) → map g (xs ++ ys) ≡ map g xs ++ map g ys
map-append g [] ys = refl
map-append g (x ∷ xs) ys = ap (g x ∷◌) (map-append g xs ys)

length-map {ℓ κ} :
    {A : Type ℓ} {B : Type κ} (g : A → B) (xs : List A) → length (map g xs) ≡ length xs
length-map g [] = refl
length-map g (x ∷ xs) = ap suc (length-map g xs)

first_pages-map :
    (project : String) (page_size : ℕ) (s : State) (n : ℕ)
    → first_pages (λ k. list_logs project k page_size s) n
      ≡ map (with_approval s) (first_pages (λ k. clamped_page k page_size (log_rows project s)) n)
unfolding list_logs
first_pages-map project page_size s zero = refl
first_pages-map project page_size s (suc n) =
    let rest = first_pages (λ k. clamped_page k page_size (log_rows project s)) n in
    let last = (clamped_page (suc n) page_size (log_rows project s)).items in
    ap (λ xs. xs ++ map (with_approval s) last) (first_pages-map project page_size s n)
    ∙ sym (map-append (with_approval s) rest last)

-- The pages of the log list, one after the other, are the project's records, or all of them where
-- no project is asked for, the latest first, each with the approval of its id; a page has at most
-- 100 items, and every page gives the same total and number of pages.
pub list_logs_complete :
    (project : String) (page_size : ℕ) (s : State)
    → Pages (λ k. list_logs project k page_size s) (map (with_approval s) (log_rows project s))
unfolding list_logs
list_logs_complete project page_size s =
    let pages = clamped_page-Pages page_size (log_rows project s) in
    record {
      covers =
          first_pages-map project page_size s
            (clamped_page 1 page_size (log_rows project s)).total_pages
          ∙ ap (map (with_approval s)) pages.covers;
      bounded = λ k.
          subst (λ n. n ≤ (clamped_page k page_size (log_rows project s)).page_size)
            (sym
              (length-map (with_approval s) (clamped_page k page_size (log_rows project s)).items))
            (pages.bounded k);
      places = pages.places;
      total = λ k. pages.total k ∙ sym (length-map (with_approval s) (log_rows project s));
      counts = pages.counts;
    }
