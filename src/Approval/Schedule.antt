-- ===== src/Approval/Schedule.antt =====
-- `_parse_scheduled_at`: the time at which an approval is to run. `datetime.strptime` matches the
-- text against a regular expression made from the format, whose fields are tried alternative by
-- alternative, and the match must end at the end of the text.
use Prim.Native.Char.{Char, code}
use devops_cd.Prelude.{
  ℕ, ◌+◌, ◌-◌, ◌*◌, ◌%◌, String, Bool, not, ◌&&◌, ◌||◌, ◌≡◌, refl, Option, none, some, List, [],
  ◌∷◌, ltb, leb, ◌==◌, if◌then◌else◌,
}
use devops_cd.Text.{is_empty, is_space, strip, lstrip, replace, append}
use devops_cd.Text.Digits.{pad}
use devops_cd.Result.{Result, ok, err, validation}

-- An alternative of a field is a list of character classes, each a range.
abbrev pub Class : Type 0
Class = ℕ × ℕ

pub data Token : Type 0 where
  field : List (List Class) → Token
  lit : ℕ → Token
  spaces : Token

abbrev digit : Class
digit = (b'0', b'9')

abbrev year_field : Token
year_field = field ((digit ∷ digit ∷ digit ∷ digit ∷ []) ∷ [])

abbrev month_field : Token
month_field = field (
    ((b'1', b'1') ∷ (b'0', b'2') ∷ [])
    ∷ ((b'0', b'0') ∷ (b'1', b'9') ∷ [])
    ∷ ((b'1', b'9') ∷ [])
    ∷ [])

abbrev day_field : Token
day_field = field (
    ((b'3', b'3') ∷ (b'0', b'1') ∷ [])
    ∷ ((b'1', b'2') ∷ digit ∷ [])
    ∷ ((b'0', b'0') ∷ (b'1', b'9') ∷ [])
    ∷ ((b'1', b'9') ∷ [])
    ∷ ((b' ', b' ') ∷ (b'1', b'9') ∷ [])
    ∷ [])

abbrev hour_field : Token
hour_field =
    field (((b'2', b'2') ∷ (b'0', b'3') ∷ []) ∷ ((b'0', b'1') ∷ digit ∷ []) ∷ (digit ∷ []) ∷ [])

abbrev sixty_field : Token
sixty_field = field (((b'0', b'5') ∷ digit ∷ []) ∷ (digit ∷ []) ∷ [])

abbrev second_field : Token
second_field =
    field (((b'6', b'6') ∷ (b'0', b'1') ∷ []) ∷ ((b'0', b'5') ∷ digit ∷ []) ∷ (digit ∷ []) ∷ [])

-- %Y-%m-%d %H:%M and %Y-%m-%d %H:%M:%S
abbrev minutes_format : List Token
minutes_format =
    year_field
    ∷ lit b'-'
    ∷ month_field
    ∷ lit b'-'
    ∷ day_field
    ∷ spaces
    ∷ hour_field
    ∷ lit b':'
    ∷ sixty_field
    ∷ []

abbrev seconds_format : List Token
seconds_format =
    year_field
    ∷ lit b'-'
    ∷ month_field
    ∷ lit b'-'
    ∷ day_field
    ∷ spaces
    ∷ hour_field
    ∷ lit b':'
    ∷ sixty_field
    ∷ lit b':'
    ∷ second_field
    ∷ []

-- The number that a field's text stands for; a leading space counts nothing.
push_digit : ℕ → ℕ → ℕ
push_digit acc c = acc * 10 + (c - 48)

match_classes : List Class → ℕ → String → Option (ℕ × String)
match_classes [] acc s = some (acc, s)
match_classes (k ∷ ks) acc String.[] = none
match_classes ((lo, hi) ∷ ks) acc (String.◌∷◌ c s) =
    let rest = match_classes ks (push_digit acc (code c)) s in
    if leb lo (code c) && leb (code c) hi then rest else none

abbrev pub Found : Type 0
Found = Option (List ℕ × String)

abbrev with_number : ℕ → Found → Found
with_number n none = none
with_number n (some (ns, s)) = some (n ∷ ns, s)

abbrev go_on : (String → Found) → Option (ℕ × String) → Found
go_on k none = none
go_on k (some (n, s)) = with_number n (k s)

abbrev or_try : Found → Found → Found
or_try (some f) g = some f
or_try none g = g

try_alternatives : List (List Class) → (String → Found) → String → Found
unfolding match_classes push_digit
try_alternatives [] k s = none
try_alternatives (a ∷ rest) k s = or_try (go_on k (match_classes a 0 s)) (try_alternatives rest k s)

match_lit : ℕ → (String → Found) → String → Found
match_lit c k String.[] = none
match_lit c k (String.◌∷◌ d s) = if code d == c then k s else none

-- \s+, which takes all the spaces there are: no field after it begins with one
match_spaces : (String → Found) → String → Found
unfolding is_space
match_spaces k String.[] = none
match_spaces k (String.◌∷◌ d s) = if is_space (code d) then k (lstrip s) else none

unfoldable pub match_tokens : List Token → String → Found
unfolding try_alternatives match_lit match_spaces lstrip
match_tokens [] s = some ([], s)
match_tokens (field a ∷ ts) s = try_alternatives a (match_tokens ts) s
match_tokens (lit c ∷ ts) s = match_lit c (match_tokens ts) s
match_tokens (spaces ∷ ts) s = match_spaces (match_tokens ts) s

is_leap : ℕ → Bool
is_leap y = y % 4 == 0 && (not (y % 100 == 0) || y % 400 == 0)

days_in_month : ℕ → ℕ → ℕ
unfolding is_leap
days_in_month y m =
    if m == 2
    then if is_leap y then 29 else 28
    else if m == 4 || m == 6 || m == 9 || m == 11
    then 30
    else 31

-- The text without leading zeros.
drop_zeros : String → String
drop_zeros String.[] = String.[]
drop_zeros (String.◌∷◌ c s) =
    let rest = drop_zeros s in if code c == b'0' then rest else String.◌∷◌ c s

year_text : ℕ → String
unfolding drop_zeros pad
year_text y = drop_zeros (pad 4 y)

-- strftime: the year stands without padding, the other fields with two digits
format : ℕ → ℕ → ℕ → ℕ → ℕ → ℕ → String
unfolding year_text
format y mo d h mi s = append (year_text y) (
    append "-" (
      append (pad 2 mo) (
        append "-" (
          append (pad 2 d) (
            append " "
              (append (pad 2 h) (append ":" (append (pad 2 mi) (append ":" (pad 2 s))))))))))

-- The datetime constructor raises on year 0, a day that the month lacks, and second 60.
checked : ℕ → ℕ → ℕ → ℕ → ℕ → ℕ → Option String
unfolding days_in_month format
checked y mo d h mi s =
    if ltb 0 y && (leb d (days_in_month y mo) && ltb s 60)
    then some (format y mo d h mi s)
    else none

at_end : List ℕ → String → Option String
unfolding checked
at_end (y ∷ mo ∷ d ∷ h ∷ mi ∷ []) String.[] = checked y mo d h mi 0
at_end (y ∷ mo ∷ d ∷ h ∷ mi ∷ s ∷ []) String.[] = checked y mo d h mi s
at_end ns rest = none

unfoldable normalize : List Token → String → Option String
unfolding match_tokens at_end
normalize ts s = elim (match_tokens ts s) [ none ↦ none | some (ns, rest) ↦ at_end ns rest ]

abbrev or_invalid : Option String → Result String
or_invalid (some t) = ok t
or_invalid none = err (validation "errors.approval_invalid_schedule")

abbrev first_of_two : Option String → Option String → Option String
first_of_two (some t) u = some t
first_of_two none u = u

space : Char
space = " "

unfoldable pub parse_scheduled_at : String → Result String
unfolding normalize strip replace space
parse_scheduled_at raw =
    let s = replace b'T' space (strip raw) in
    if is_empty s
    then ok ""
    else or_invalid (first_of_two (normalize seconds_format s) (normalize minutes_format s))

schedule_test : parse_scheduled_at " 2026-2-9T7:05 " ≡ ok "2026-02-09 07:05:00"
unfolding parse_scheduled_at
schedule_test = refl

schedule_leap :
    parse_scheduled_at "2026-02-29 00:00" ≡ err (validation "errors.approval_invalid_schedule")
unfolding parse_scheduled_at
schedule_leap = refl
