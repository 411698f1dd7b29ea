-- ===== src/Lease/Exclusion.antt =====
-- The lock is with one instance at a time, until its time to live is over.
use Prim.Native.Char.{code}
use devops_cd.Prelude.{
  ℕ, ◌+◌, ◌^◌, ◌<◌, ◌≤◌, String, Bool, true, false, not, ◌&&◌, Option, none, some, ◌==◌, str_eq,
  eq_iff, if◌then◌else◌, ◌≡◌, refl, sym, arith, &&-eq-true,
}
use mathlib.Core.Path.{subst}
use devops_cd.Text.{append}
use devops_cd.Text.Digits.{pad, to_number-pad, is_digit-pad}
use devops_cd.Lease.{partition, value_of, is_expired, may_take, replace_value, write}

-- An instance's name has no bar: host name, process id and random digits, joined by colons.
abbrev pub no_bar : String → Bool
no_bar String.[] = true
no_bar (String.◌∷◌ c s) = not (code c == b'|') && no_bar s

partition-value :
    (owner ts : String)
    → no_bar owner ≡ true
    → partition (append owner (append "|" ts)) ≡ (owner, ts)
unfolding partition
partition-value String.[] ts h = refl
partition-value (String.◌∷◌ c s) ts h =
    let (front, more) = &&-eq-true (not (code c == b'|')) (no_bar s) h in
    let other : (code c == b'|') ≡ false = ground arith in
    rw (other, partition-value s ts more) refl

-- A successful write leaves the value of its owner.
replaced :
    (value old : String) (cell : Option String)
    → (replace_value value old cell).0 ≡ true
    → (replace_value value old cell).1 ≡ some value
replaced value old cell h = ground arith

taken :
    (b : Bool) (value old : String) (cell : Option String)
    → (if b then replace_value value old cell else (false, cell)).0 ≡ true
    → (if b then replace_value value old cell else (false, cell)).1 ≡ some value
taken true value old cell h = replaced value old cell h
taken false value old cell h = absurd (ground arith)

written :
    (owner : String) (now ttl : ℕ) (seen cell : Option String)
    → (write owner now ttl seen cell).0 ≡ true
    → (write owner now ttl seen cell).1 ≡ some (value_of owner now)
unfolding write
written owner now ttl none none h = refl
written owner now ttl none (some v) h = absurd (ground arith)
written owner now ttl (some old) cell h =
    taken (may_take owner now ttl (partition old)) (value_of owner now) old cell h

-- A write over a value that is there needs the right to take it.
permitted :
    (b : Bool) (value old v : String)
    → (if b then replace_value value old (some v) else (false, some v)).0 ≡ true
    → (b ≡ true) × (v ≡ old)
permitted true value old v h = (refl, (eq_iff v old).0 (ground arith))
permitted false value old v h = absurd (ground arith)

took_over :
    (owner : String) (now ttl : ℕ) (seen : Option String) (v : String)
    → (write owner now ttl seen (some v)).0 ≡ true
    → may_take owner now ttl (partition v) ≡ true
unfolding write
took_over owner now ttl none v h = absurd (ground arith)
took_over owner now ttl (some old) v h =
    let (may, same) =
      permitted (may_take owner now ttl (partition old)) (value_of owner now) old v h in
    subst (λ z. may_take owner now ttl (partition z) ≡ true) (sym same) may

expired_late : (t u ttl : ℕ) → t < 10 ^ 13 → is_expired u ttl (pad 13 t) ≡ true → t + ttl ≤ u
expired_late t u ttl h e = ground (arith, is_digit-pad 12 t, to_number-pad 13 0 t h)

-- The clock has at most 13 digits and the first instance's name has no bar. When an instance has
-- taken or renewed the lock at second t, then as long as nobody else writes, no other instance gets
-- it before second t plus the time to live, whatever either of them had read before it wrote.
pub write-excludes :
    (a b : String) (t u ttl : ℕ) (seen_a seen_b cell : Option String)
    → no_bar a ≡ true
    → str_eq a b ≡ false
    → t < 10 ^ 13
    → (write a t ttl seen_a cell).0 ≡ true
    → (write b u ttl seen_b (write a t ttl seen_a cell).1).0 ≡ true
    → t + ttl ≤ u
write-excludes a b t u ttl seen_a seen_b cell bar differ small first second =
    let now =
      subst (λ z. (write b u ttl seen_b z).0 ≡ true) (written a t ttl seen_a cell first) second in
    let may = took_over b u ttl seen_b (value_of a t) now in
    let split = subst (λ z. may_take b u ttl z ≡ true) (partition-value a (pad 13 t) bar) may in
    expired_late t u ttl small (ground arith)
