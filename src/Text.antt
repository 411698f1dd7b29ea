-- ===== src/Text.antt =====
-- What the services use of Python's `str`: split, strip, lower, isdigit, int, join, slices, order.
-- A text is the native `String`, and is walked character by character.
pub mod Order
pub mod Csv
pub mod Digits
pub mod Dict
use Prim.Native.Char.{Char, code}
use devops_cd.Prelude.{
  ℕ, zero, suc, ◌+◌, ◌-◌, ◌*◌, String, ◌≡◌, refl, Bool, true, false, ◌&&◌, ◌||◌, not, List, [], ◌∷◌,
  ltb, leb, ◌==◌, str_eq, if◌then◌else◌,
}

-- bool(s)
abbrev pub is_empty : String → Bool
is_empty String.[] = true
is_empty (String.◌∷◌ c s) = false

-- `x in xs`
abbrev pub contains : String → List String → Bool
contains x [] = false
contains x (y ∷ ys) = str_eq x y || contains x ys

-- len(s)
abbrev pub length : String → ℕ
length String.[] = 0
length (String.◌∷◌ c s) = suc (length s)

-- s + t
abbrev pub append : String → String → String
append String.[] t = t
append (String.◌∷◌ c s) t = String.◌∷◌ c (append s t)

-- The characters that `str.strip` and `str.split` take for white space.
unfoldable pub is_space : ℕ → Bool
is_space c =
    leb 9 c && leb c 13
    || (leb 28 c && leb c 32)
    || (c == 0x85 || c == 0xa0 || c == 0x1680)
    || (leb 0x2000 c && leb c 0x200a)
    || (c == 0x2028 || c == 0x2029 || c == 0x202f || c == 0x205f || c == 0x3000)

-- s.lstrip()
unfoldable pub lstrip : String → String
unfolding is_space
lstrip String.[] = String.[]
lstrip (String.◌∷◌ c s) = let rest = lstrip s in if is_space (code c) then rest else String.◌∷◌ c s

-- s.rstrip(): a character stays if it is no space or something behind it stays
unfoldable pub rstrip : String → String
unfolding is_space
rstrip String.[] = String.[]
rstrip (String.◌∷◌ c s) =
    let rest = rstrip s in
    if is_empty rest && is_space (code c) then String.[] else String.◌∷◌ c rest

-- s.strip()
unfoldable pub strip : String → String
unfolding lstrip rstrip
strip s = rstrip (lstrip s)

cons_head : Char → List String → List String
cons_head c [] = String.◌∷◌ c String.[] ∷ []
cons_head c (w ∷ ws) = String.◌∷◌ c w ∷ ws

-- s.split(sep) at a separator of one character; never the empty list
unfoldable pub split : ℕ → String → List String
unfolding cons_head
split sep String.[] = String.[] ∷ []
split sep (String.◌∷◌ c s) =
    let rest = split sep s in if code c == sep then String.[] ∷ rest else cons_head c rest

-- s.replace(a, b) for single characters
unfoldable pub replace : ℕ → Char → String → String
replace a b String.[] = String.[]
replace a b (String.◌∷◌ c s) = String.◌∷◌ (if code c == a then b else c) (replace a b s)

-- s.isdigit() on ASCII digits
abbrev pub all_digits : String → Bool
all_digits String.[] = true
all_digits (String.◌∷◌ c s) = (leb b'0' (code c) && leb (code c) b'9') && all_digits s

unfoldable pub is_digit : String → Bool
is_digit s = not (is_empty s) && all_digits s

-- int(s) of a text of digits
unfoldable pub to_number : ℕ → String → ℕ
to_number acc String.[] = acc
to_number acc (String.◌∷◌ c s) = to_number (acc * 10 + (code c - 48)) s

-- The character of the second text at the place where the first one holds `c`, or `c`.
translate : String → String → Char → Char
translate String.[] t c = c
translate (String.◌∷◌ a s) String.[] c = c
translate (String.◌∷◌ a s) (String.◌∷◌ b t) c =
    let rest = translate s t c in if code a == code c then b else rest

-- s.lower() on ASCII letters; every other character stays.
unfoldable pub lower : String → String
unfolding translate
lower String.[] = String.[]
lower (String.◌∷◌ c s) =
    String.◌∷◌ (translate "ABCDEFGHIJKLMNOPQRSTUVWXYZ" "abcdefghijklmnopqrstuvwxyz" c) (lower s)

-- s[:n]
unfoldable pub take : ℕ → String → String
take zero s = String.[]
take (suc n) String.[] = String.[]
take (suc n) (String.◌∷◌ c s) = String.◌∷◌ c (take n s)

-- sep.join(xs)
unfoldable pub join : String → List String → String
join sep [] = ""
join sep (x ∷ []) = x
join sep (x ∷ y ∷ xs) = append x (append sep (join sep (y ∷ xs)))

strip_test : strip "  a b\t" ≡ "a b"
unfolding strip
strip_test = refl

split_test : split b',' "a,,b" ≡ "a" ∷ "" ∷ "b" ∷ []
unfolding split
split_test = refl
