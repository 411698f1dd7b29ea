-- ===== src/Text/Csv.antt =====
-- Comma-separated fields: `_parse_csv` of the approval service, and the lists of server ids that
-- the approval and deployment services read the same way.
use devops_cd.Prelude.{ℕ, String, List, [], ◌∷◌, if◌then◌else◌, ◌≡◌, refl}
use devops_cd.Text.{is_empty, strip, split, is_digit, to_number}

strip_all : List String → List String
strip_all [] = []
strip_all (x ∷ xs) = let rest = strip_all xs in if is_empty (strip x) then rest else strip x ∷ rest

-- [x.strip() for x in (s or "").split(",") if x.strip()]
unfoldable pub parse_csv : String → List String
unfolding strip_all strip split
parse_csv s = strip_all (split b',' s)

numbers : List String → List ℕ
numbers [] = []
numbers (x ∷ xs) =
    let rest = numbers xs in if is_digit (strip x) then to_number 0 (strip x) ∷ rest else rest

-- [int(s) for s in server_ids.split(",") if s.strip().isdigit()]
unfoldable pub parse_server_ids : String → List ℕ
unfolding numbers strip split is_digit to_number
parse_server_ids s = numbers (split b',' s)

parse_csv_test : parse_csv " a, ,b c ," ≡ "a" ∷ "b c" ∷ []
unfolding parse_csv
parse_csv_test = refl

parse_server_ids_test : parse_server_ids "3, 12,x,,7" ≡ 3 ∷ 12 ∷ 7 ∷ []
unfolding parse_server_ids
parse_server_ids_test = refl
