-- ===== src/Lease.antt =====
-- backend/dlock.py: a lock with a time to live, kept in one row of cd_config whose value is the
-- owner, a bar and the zero-padded second of the last renewal.
pub mod Exclusion
use Prim.Native.Char.{code}
use devops_cd.Prelude.{
  ℕ, ◌+◌, String, Bool, true, false, not, ◌&&◌, ◌||◌, Option, none, some, leb, ◌==◌, str_eq,
  if◌then◌else◌, ◌≡◌, refl,
}
use devops_cd.Text.{is_empty, append, is_digit, to_number}
use devops_cd.Text.Digits.{pad}

-- old.partition("|"), without the separator
unfoldable pub partition : String → String × String
partition String.[] = ("", "")
partition (String.◌∷◌ c s) =
    let rest = partition s in if code c == b'|' then ("", s) else (String.◌∷◌ c rest.0, rest.1)

abbrev pub value_of : String → ℕ → String
value_of owner now = append owner (append "|" (pad 13 now))

-- A value that is no time counts as expired.
abbrev pub is_expired : ℕ → ℕ → String → Bool
is_expired now ttl ts = not (is_digit ts) || leb (to_number 0 ts + ttl) now

abbrev pub may_take : String → ℕ → ℕ → String × String → Bool
may_take owner now ttl (old_owner, ts) = str_eq old_owner owner || is_expired now ttl ts

abbrev pub cell_is : String → Option String → Bool
cell_is old none = false
cell_is old (some v) = str_eq v old

-- INSERT, which the primary key refuses where there is a row.
abbrev pub insert_value : String → Option String → Bool × Option String
insert_value value none = (true, some value)
insert_value value (some v) = (false, some v)

-- UPDATE … SET value WHERE value=old
abbrev pub replace_value : String → String → Option String → Bool × Option String
replace_value value old cell = if cell_is old cell then (true, some value) else (false, cell)

-- The write of `acquire`, by the row that it has read before and the row at the time of the write.
unfoldable pub write : String → ℕ → ℕ → Option String → Option String → Bool × Option String
unfolding partition
write owner now ttl none cell = insert_value (value_of owner now) cell
write owner now ttl (some old) cell =
    if may_take owner now ttl (partition old)
    then replace_value (value_of owner now) old cell
    else (false, cell)

-- `acquire`: what nobody changed between the read and the write.
unfoldable pub acquire : String → ℕ → ℕ → Option String → Bool × Option String
acquire owner now ttl cell = write owner now ttl cell cell

abbrev pub starts : String → String → Bool
starts String.[] s = true
starts (String.◌∷◌ c m) String.[] = false
starts (String.◌∷◌ c m) (String.◌∷◌ d s) = code c == code d && starts m s

-- value LIKE 'owner|%', for an owner without wildcards
abbrev is_of : String → Option String → Bool
is_of owner none = false
is_of owner (some v) = starts (append owner "|") v

unfoldable pub release : String → Option String → Option String
release owner cell = if is_of owner cell then none else cell

-- Taken, refused while it is young, taken over when it has expired, and released.
take_test : acquire "a:1" 100 90 none ≡ (true, some "a:1|0000000000100")
unfolding acquire write pad
take_test = refl

keep_test : acquire "b:1" 189 90 (some "a:1|0000000000100") ≡ (false, some "a:1|0000000000100")
unfolding acquire write pad partition is_digit to_number
keep_test = refl

expire_test : acquire "b:1" 190 90 (some "a:1|0000000000100") ≡ (true, some "b:1|0000000000190")
unfolding acquire write pad partition is_digit to_number
expire_test = refl

release_test : release "a:1" (some "a:1|0000000000100") ≡ none
unfolding release
release_test = refl
