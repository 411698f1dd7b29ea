-- ===== src/Text/Order.antt =====
-- The order of texts by code points, which SQL's `<=` on fixed-width times and `sorted` use.
use Prim.Native.Char.{code}
use devops_cd.Prelude.{String, Bool, true, false, List, [], ◌∷◌, ltb, ◌==◌, str_eq, if◌then◌else◌}

-- s <= t
unfoldable pub le_text : String → String → Bool
le_text String.[] t = true
le_text (String.◌∷◌ c s) String.[] = false
le_text (String.◌∷◌ c s) (String.◌∷◌ d t) =
    let rest = le_text s t in
    if ltb (code c) (code d) then true else if code c == code d then rest else false

-- Insertion into a sorted list without repetitions: `sorted` of a set.
unfoldable pub insert : String → List String → List String
unfolding le_text
insert x [] = x ∷ []
insert x (y ∷ ys) =
    let rest = insert x ys in
    if str_eq x y then y ∷ ys else if le_text x y then x ∷ y ∷ ys else y ∷ rest

-- sorted(set(xs))
unfoldable pub sorted : List String → List String
unfolding insert
sorted [] = []
sorted (x ∷ xs) = insert x (sorted xs)
