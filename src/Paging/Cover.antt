-- ===== src/Paging/Cover.antt =====
-- backend/responses.py and the paged queries: the pages of a list are the list.
use devops_cd.Prelude.{
  ℕ, zero, suc, ◌+◌, ◌-◌, ◌*◌, ◌/◌, ◌≤◌, ◌<◌, min, max, List, [], ◌∷◌, ◌++◌, length, ◌≡◌, refl, sym,
  ap, ◌∙◌, arith,
}
use native.Mathlib.Nat.{native_laws, zero-add, suc-add, suc-mul, zero-mul}
use devops_cd.Paging.{limit, offset, Page, total_pages_of, page_of, clamped_page}

module _ {ℓ} {A : Type ℓ} where
  limit-empty : (n : ℕ) → limit {A = A} n [] ≡ []
  unfolding limit
  limit-empty zero = refl
  limit-empty (suc n) = refl

  limit-append : (m n : ℕ) (xs : List A) → limit m xs ++ limit n (offset m xs) ≡ limit (m + n) xs
  unfolding limit offset
  limit-append zero n xs = ap (λ k. limit k xs) (sym (zero-add n))
  limit-append (suc m) n [] = limit-empty n ∙ sym (limit-empty (suc m + n))
  limit-append (suc m) n (x ∷ xs) =
      ap (x ∷◌) (limit-append m n xs) ∙ ap (λ k. limit k (x ∷ xs)) (sym (suc-add m n))

  pub limit-all : (n : ℕ) (xs : List A) → length xs ≤ n → limit n xs ≡ xs
  unfolding limit
  limit-all zero [] h = refl
  limit-all zero (x ∷ xs) h = absurd (omega (arith, h))
  limit-all (suc n) [] h = refl
  limit-all (suc n) (x ∷ xs) h = ap (x ∷◌) (limit-all n xs (omega (arith, h)))

  pub length-limit : (n : ℕ) (xs : List A) → length (limit n xs) ≤ n
  unfolding limit
  length-limit zero xs = omega arith
  length-limit (suc n) [] = omega arith
  length-limit (suc n) (x ∷ xs) = omega (arith, length-limit n xs)

-- The items of the pages 1 to n, one after the other.
abbrev pub first_pages {ℓ} : {A : Type ℓ} → (ℕ → Page A) → ℕ → List A
first_pages f zero = []
first_pages f (suc n) = first_pages f n ++ (f (suc n)).items

before : (n : ℕ) → suc n - 1 ≡ n
before n = omega arith

first_pages-limit {ℓ} :
    {A : Type ℓ} (page_size n : ℕ) (rows : List A)
    → first_pages (λ k. page_of k page_size rows) n ≡ limit (n * page_size) rows
unfolding page_of
first_pages-limit page_size zero rows = ap (λ k. limit k rows) (sym (zero-mul page_size))
first_pages-limit page_size (suc n) rows =
    ap
      (λ k.
        first_pages (λ k. page_of k page_size rows) n
        ++ limit page_size (offset (k * page_size) rows))
      (before n)
    ∙ ap (λ xs. xs ++ limit page_size (offset (n * page_size) rows))
        (first_pages-limit page_size n rows)
    ∙ limit-append (n * page_size) page_size rows
    ∙ ap (λ k. limit k rows) (sym (suc-mul n page_size))

enough_pages :
    (total page_size : ℕ) → 0 < page_size → total ≤ total_pages_of total page_size * page_size
unfolding total_pages_of
enough_pages total page_size h =
    let q = (total + page_size - 1) / page_size in
    let below = native_laws.lt-div-mul-add {a = total + page_size - 1} {b = page_size} h in
    let more = native_laws.mul-le-mul_right {m = q} {n = max q 1} page_size (omega arith) in
    omega (arith, below, more, h)

-- Pages of a positive size make up the rows.
pub page_of-covers {ℓ} :
    {A : Type ℓ} (page_size : ℕ) (rows : List A)
    → 0 < page_size
    → first_pages (λ k. page_of k page_size rows) (total_pages_of (length rows) page_size) ≡ rows
page_of-covers page_size rows h =
    first_pages-limit page_size (total_pages_of (length rows) page_size) rows
    ∙ limit-all (total_pages_of (length rows) page_size * page_size) rows
        (enough_pages (length rows) page_size h)

-- The pages 1 to the last one.
abbrev pub all_pages {ℓ} : {A : Type ℓ} → (ℕ → Page A) → List A
all_pages f = first_pages f (f 1).total_pages

first_pages-ext {ℓ} :
    {A : Type ℓ} (f g : ℕ → Page A) (n : ℕ)
    → ((k : ℕ) → (f (suc k)).items ≡ (g (suc k)).items)
    → first_pages f n ≡ first_pages g n
first_pages-ext f g zero h = refl
first_pages-ext f g (suc n) h =
    ap (λ xs. xs ++ (f (suc n)).items) (first_pages-ext f g n h)
    ∙ ap (λ xs. first_pages g n ++ xs) (h n)

-- What the callers of `clamped_page` promise: the pages make up the rows, a page has 1 to 100
-- places, its items are no more than these, and the counts are those of the rows.
pub record Pages {ℓ} {A : Type ℓ} (f : ℕ → Page A) (rows : List A) : Type ℓ where
  pub covers : all_pages f ≡ rows
  pub bounded : (k : ℕ) → length (f k).items ≤ (f k).page_size
  pub places : (k : ℕ) → (1 ≤ (f k).page_size) × ((f k).page_size ≤ 100)
  pub total : (k : ℕ) → (f k).total ≡ length rows
  pub counts : (k : ℕ) → (f k).total_pages ≡ (f 1).total_pages

pub clamped_page-Pages {ℓ} :
    {A : Type ℓ} (page_size : ℕ) (rows : List A) → Pages (λ k. clamped_page k page_size rows) rows
unfolding clamped_page page_of
clamped_page-Pages page_size rows =
    let size = max (min page_size 100) 1 in
    record {
      covers =
          first_pages-ext (λ k. clamped_page k page_size rows) (λ k. page_of k size rows)
            (total_pages_of (length rows) size)
            (λ k. ap (λ n. (page_of n size rows).items) (omega arith))
          ∙ page_of-covers size rows (omega arith);
      bounded = λ k. length-limit size (offset ((max k 1 - 1) * size) rows);
      places = λ k. (omega arith, omega arith);
      total = λ k. refl;
      counts = λ k. refl;
    }
