-- ===== src/Paging.antt =====
-- Lists by pages, as backend/responses.py, services/approval_service.py, services/deploy_service.py
-- and services/registry_service.py give them: LIMIT and OFFSET on a query's rows, the number of rows
-- and the number of pages.
pub mod Cover
use devops_cd.Prelude.{ℕ, zero, suc, ◌+◌, ◌-◌, ◌*◌, ◌/◌, min, max, List, [], ◌∷◌, length}

module _ {ℓ} {A : Type ℓ} where
  -- LIMIT n
  unfoldable pub limit : ℕ → List A → List A
  limit zero xs = []
  limit (suc n) [] = []
  limit (suc n) (x ∷ xs) = x ∷ limit n xs

  -- OFFSET n
  unfoldable pub offset : ℕ → List A → List A
  offset zero xs = xs
  offset (suc n) [] = []
  offset (suc n) (x ∷ xs) = offset n xs

-- The dict of a page.
pub record Page {ℓ} (A : Type ℓ) : Type ℓ where
  pub items : List A
  pub total : ℕ
  pub page : ℕ
  pub page_size : ℕ
  pub total_pages : ℕ

-- max((total + page_size - 1) // page_size, 1)
unfoldable pub total_pages_of : ℕ → ℕ → ℕ
total_pages_of total page_size = max ((total + page_size - 1) / page_size) 1

-- What a query gives for a page, by all its rows in its order.
unfoldable pub page_of {ℓ} : {A : Type ℓ} → ℕ → ℕ → List A → Page A
unfolding limit offset total_pages_of
page_of page page_size rows = record {
  items = limit page_size (offset ((page - 1) * page_size) rows);
  total = length rows;
  page = page;
  page_size = page_size;
  total_pages = total_pages_of (length rows) page_size;
}

-- `page = max(page, 1)` and `page_size = max(min(page_size, 100), 1)`
unfoldable pub clamped_page {ℓ} : {A : Type ℓ} → ℕ → ℕ → List A → Page A
unfolding page_of
clamped_page page page_size rows = page_of (max page 1) (max (min page_size 100) 1) rows
