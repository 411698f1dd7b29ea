-- ===== src/Deploy/Marker.antt =====
-- The text around the `|INV|` marker.
use Prim.Native.Char.{Char, code}
use devops_cd.Prelude.{
  ◌≤◌, String, true, arith, Option, none, some, ◌≡◌, ◌≢◌, refl, ap, ◌==◌, inl, inr, Bool-cases,
  ==_iff,
}
use text.Mathlib.TextEquality.{Char-path}
use text.Mathlib.TextLemmas.{head-eq_of_cons-eq, tail-eq_of_cons-eq, cons≢nil}
use devops_cd.Text.{append, length}
use devops_cd.Deploy.Options.{
  Options, drop_prefix, split_once, split_here, parse_command_options, with_commands, marker,
}

-- What `drop_prefix m s` found, put back.
abbrev Refits : String → String → Option String → Type 0
Refits m s none = Unit
Refits m s (some v) = append m v ≡ s

Refits-cons :
    (c d : Char) (m s : String) (o : Option String)
    → code c ≡ code d
    → Refits m s o
    → Refits (String.◌∷◌ c m) (String.◌∷◌ d s) o
Refits-cons c d m s none e h = tt
Refits-cons c d m s (some v) e h = rw (Char-path c d e, h) refl

drop_prefix-Refits : (m s : String) → Refits m s (drop_prefix m s)
unfolding drop_prefix
drop_prefix-Refits String.[] s = refl
drop_prefix-Refits (String.◌∷◌ c m) String.[] = tt
drop_prefix-Refits (String.◌∷◌ c m) (String.◌∷◌ d s) = elim (Bool-cases (code c == code d)) [
  | inl same ↦ rw same (
      Refits-cons c d m s (drop_prefix m s) ((==_iff (code c) (code d)).0 same)
        (drop_prefix-Refits m s))
  | inr other ↦ rw other tt
]

-- What `split_once m s` found, put back.
abbrev Joins : String → String → Option (String × String) → Type 0
Joins m s none = Unit
Joins m s (some (before, v)) = append before (append m v) ≡ s

split_here-Joins :
    (m : String) (c : Char) (s : String) (o : Option String) (later : Option (String × String))
    → Refits m (String.◌∷◌ c s) o
    → Joins m s later
    → Joins m (String.◌∷◌ c s) (split_here o later (String.◌∷◌ c s))
split_here-Joins m c s (some v) later h k = h
split_here-Joins m c s none none h k = tt
split_here-Joins m c s none (some (before, v)) h k = ap (λ z. String.◌∷◌ c z) k

split_end-Joins :
    (m : String) (o : Option String)
    → Refits m String.[] o
    → Joins m String.[] (split_here o none String.[])
split_end-Joins m none h = tt
split_end-Joins m (some v) h = h

split_once-Joins : (m s : String) → Joins m s (split_once m s)
unfolding split_once
split_once-Joins m String.[] = split_end-Joins m _ (drop_prefix-Refits m String.[])
split_once-Joins m (String.◌∷◌ c s) =
    split_here-Joins m c s _ _ (drop_prefix-Refits m (String.◌∷◌ c s)) (split_once-Joins m s)

-- Where nothing is dropped, the text does not begin with the prefix.
abbrev Misses : String → String → Option String → Type 0
Misses m s none = (y : String) → append m y ≢ s
Misses m s (some v) = Unit

Misses-cons :
    (c d : Char) (m s : String) (o : Option String)
    → Misses m s o
    → Misses (String.◌∷◌ c m) (String.◌∷◌ d s) o
Misses-cons c d m s none h = λ y e. h y (tail-eq_of_cons-eq e)
Misses-cons c d m s (some v) h = tt

drop_prefix-Misses : (m s : String) → Misses m s (drop_prefix m s)
unfolding drop_prefix
drop_prefix-Misses String.[] s = tt
drop_prefix-Misses (String.◌∷◌ c m) String.[] = λ y e. cc
drop_prefix-Misses (String.◌∷◌ c m) (String.◌∷◌ d s) = elim (Bool-cases (code c == code d)) [
  | inl same ↦ rw same (Misses-cons c d m s (drop_prefix m s) (drop_prefix-Misses m s))
  | inr other ↦ rw other λ y e.
      let same : (code c == code d) ≡ true =
        (==_iff (code c) (code d)).1 (ap code (head-eq_of_cons-eq e)) in
      cc
]

-- The first place of `m` in a text: none, or behind a text that is no longer than what is in front
-- of any place.
abbrev First : String → String → Option (String × String) → Type 0
First m s none = (x y : String) → append x (append m y) ≢ s
First m s (some (before, v)) = (x y : String) → append x (append m y) ≡ s → length before ≤ length x

no_place :
    (m : String) (c : Char) (s : String)
    → ((y : String) → append m y ≢ String.◌∷◌ c s)
    → ((x y : String) → append x (append m y) ≢ s)
    → (x y : String) → append x (append m y) ≢ String.◌∷◌ c s
no_place m c s h k String.[] y = h y
no_place m c s h k (String.◌∷◌ d x) y = λ e. k x y (tail-eq_of_cons-eq e)

later_place :
    (m : String) (c : Char) (s before : String)
    → ((y : String) → append m y ≢ String.◌∷◌ c s)
    → ((x y : String) → append x (append m y) ≡ s → length before ≤ length x)
    → (x y : String) → append x (append m y) ≡ String.◌∷◌ c s
    → length (String.◌∷◌ c before) ≤ length x
later_place m c s before h k String.[] y e = absurd (h y e)
later_place m c s before h k (String.◌∷◌ d x) y e =
    let later = k x y (tail-eq_of_cons-eq e) in omega (arith, later)

split_here-First :
    (m : String) (c : Char) (s : String) (o : Option String) (later : Option (String × String))
    → Misses m (String.◌∷◌ c s) o
    → First m s later
    → First m (String.◌∷◌ c s) (split_here o later (String.◌∷◌ c s))
split_here-First m c s (some v) later h k = λ x y e. omega arith
split_here-First m c s none none h k = no_place m c s h k
split_here-First m c s none (some (before, v)) h k = later_place m c s before h k

nowhere :
    (m : String)
    → ((y : String) → append m y ≢ String.[])
    → (x y : String) → append x (append m y) ≢ String.[]
nowhere m h String.[] y = h y
nowhere m h (String.◌∷◌ d x) y = λ e. cons≢nil e

split_end-First :
    (m : String) (o : Option String)
    → Misses m String.[] o
    → First m String.[] (split_here o none String.[])
split_end-First m none h = nowhere m h
split_end-First m (some v) h = λ x y e. omega arith

split_once-First : (m s : String) → First m s (split_once m s)
unfolding split_once
split_once-First m String.[] = split_end-First m _ (drop_prefix-Misses m String.[])
split_once-First m (String.◌∷◌ c s) =
    split_here-First m c s _ _ (drop_prefix-Misses m (String.◌∷◌ c s)) (split_once-First m s)

abbrev with_inventory : String → Option String → String
with_inventory commands none = commands
with_inventory commands (some v) = append commands (append "|INV|" v)

abbrev pub or_empty : Option String → String
or_empty none = ""
or_empty (some s) = s

-- The text that the two options stand for.
abbrev pub print_options : Options → String
print_options o = with_inventory (or_empty o.commands) o.inventory

print_with :
    (s : String) (o : Option (String × String))
    → Joins marker s o
    → print_options (with_commands s o) ≡ s
print_with s none h = refl
print_with s (some (before, v)) h = h

-- Where there is no inventory, the text has no mark; otherwise the commands end at its first one.
abbrev pub MarkedFirst : String → Option String → String → Type 0
MarkedFirst s none commands = (x y : String) → append x (append "|INV|" y) ≢ s
MarkedFirst s (some v) commands =
    (x y : String) → append x (append "|INV|" y) ≡ s → length commands ≤ length x

with_commands-MarkedFirst :
    (s : String) (o : Option (String × String))
    → First marker s o
    → MarkedFirst s (with_commands s o).inventory (or_empty (with_commands s o).commands)
with_commands-MarkedFirst s none h = h
with_commands-MarkedFirst s (some (before, v)) h = h

-- The commands and the inventory that are read from a text of commands, joined by the mark |INV|,
-- are that text again; where no inventory is read, the mark is nowhere in the text, and otherwise
-- no place of the mark is in front of the one at which the commands end.
pub command_options_roundtrip :
    (s : String)
    → (print_options (parse_command_options s) ≡ s)
      × MarkedFirst s
          (parse_command_options s).inventory
          (or_empty (parse_command_options s).commands)
unfolding parse_command_options
command_options_roundtrip String.[] = (refl, nowhere marker (λ y e. cons≢nil e))
command_options_roundtrip (String.◌∷◌ c s) = (
  print_with (String.◌∷◌ c s) (split_once marker (String.◌∷◌ c s))
      (split_once-Joins marker (String.◌∷◌ c s)),
  with_commands-MarkedFirst (String.◌∷◌ c s) (split_once marker (String.◌∷◌ c s))
      (split_once-First marker (String.◌∷◌ c s)),
)
