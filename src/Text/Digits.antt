-- ===== src/Text/Digits.antt =====
-- Numbers as text: zero-padded fields of fixed width.
use devops_cd.Prelude.{
  ℕ, zero, suc, ◌-◌, ◌/◌, ◌%◌, ◌+◌, ◌*◌, ◌^◌, ◌<◌, arith, true, ltb, ap, ◌∙◌, String, ◌≡◌, refl,
  ◌==◌, ltb, if◌then◌else◌,
}
use Prim.Native.Char.{code}
use native.Mathlib.Nat.{mul_assoc, pow-suc}
use devops_cd.Text.{append, to_number, is_digit, all_digits}

pick : String → ℕ → String
pick String.[] n = ""
pick (String.◌∷◌ c s) n =
    let rest = pick s (n - 1) in if n == 0 then String.◌∷◌ c String.[] else rest

-- f"{n:0kd}" for n below 10 ^ k
unfoldable pub pad : ℕ → ℕ → String
unfolding pick
pad zero n = ""
pad (suc k) n = append (pad k (n / 10)) (pick "0123456789" (n % 10))

-- str(n), on fuel; a number has at most as many digits as it is large.
decimal_from : ℕ → ℕ → String
unfolding pick
decimal_from zero n = ""
decimal_from (suc k) n =
    let rest = decimal_from k (n / 10) in
    if ltb n 10 then pick "0123456789" n else append rest (pick "0123456789" (n % 10))

unfoldable pub decimal : ℕ → String
unfolding decimal_from
decimal n = decimal_from (suc n) n

decimal_test : decimal 307 ≡ "307"
unfolding decimal
decimal_test = refl

pad_test : pad 4 307 ≡ "0307"
unfolding pad
pad_test = refl

to_number-append :
    (acc : ℕ) (s t : String) → to_number acc (append s t) ≡ to_number (to_number acc s) t
unfolding to_number
to_number-append acc String.[] t = refl
to_number-append acc (String.◌∷◌ c s) t = to_number-append (acc * 10 + (code c - 48)) s t

to_number-pick : (acc n : ℕ) → n < 10 → to_number acc (pick "0123456789" n) ≡ acc * 10 + n
unfolding to_number pick
to_number-pick acc zero h = omega arith
to_number-pick acc (suc zero) h = omega arith
to_number-pick acc (suc (suc zero)) h = omega arith
to_number-pick acc (suc (suc (suc zero))) h = omega arith
to_number-pick acc (suc (suc (suc (suc zero)))) h = omega arith
to_number-pick acc (suc (suc (suc (suc (suc zero))))) h = omega arith
to_number-pick acc (suc (suc (suc (suc (suc (suc zero)))))) h = omega arith
to_number-pick acc (suc (suc (suc (suc (suc (suc (suc zero))))))) h = omega arith
to_number-pick acc (suc (suc (suc (suc (suc (suc (suc (suc zero)))))))) h = omega arith
to_number-pick acc (suc (suc (suc (suc (suc (suc (suc (suc (suc zero))))))))) h = omega arith
to_number-pick acc (suc (suc (suc (suc (suc (suc (suc (suc (suc (suc n)))))))))) h =
    absurd (omega arith)

last_digit : (acc p n : ℕ) → (acc * p + n / 10) * 10 + n % 10 ≡ acc * (p * 10) + n
last_digit acc p n = omega (arith, mul_assoc acc p 10)

-- A number below 10 ^ k is read back from its padded text.
pub to_number-pad : (k acc n : ℕ) → n < 10 ^ k → to_number acc (pad k n) ≡ acc * 10 ^ k + n
unfolding pad to_number
to_number-pad zero acc n h = omega arith
to_number-pad (suc k) acc n h =
    let front = to_number-pad k acc (n / 10) (omega (arith, h)) in
    rw (pow-suc 10 k) (
      to_number-append acc (pad k (n / 10)) (pick "0123456789" (n % 10))
      ∙ ap (λ m. to_number m (pick "0123456789" (n % 10))) front
      ∙ to_number-pick (acc * 10 ^ k + n / 10) (n % 10) (omega arith)
      ∙ last_digit acc (10 ^ k) n)

all_digits-append :
    (s t : String) → all_digits s ≡ true → all_digits t ≡ true → all_digits (append s t) ≡ true
all_digits-append String.[] t h k = k
all_digits-append (String.◌∷◌ c s) t h k = ground (arith, all_digits-append s t)

is_digit-pick : (n : ℕ) → n < 10 → is_digit (pick "0123456789" n) ≡ true
unfolding pick is_digit
is_digit-pick zero h = refl
is_digit-pick (suc zero) h = refl
is_digit-pick (suc (suc zero)) h = refl
is_digit-pick (suc (suc (suc zero))) h = refl
is_digit-pick (suc (suc (suc (suc zero)))) h = refl
is_digit-pick (suc (suc (suc (suc (suc zero))))) h = refl
is_digit-pick (suc (suc (suc (suc (suc (suc zero)))))) h = refl
is_digit-pick (suc (suc (suc (suc (suc (suc (suc zero))))))) h = refl
is_digit-pick (suc (suc (suc (suc (suc (suc (suc (suc zero)))))))) h = refl
is_digit-pick (suc (suc (suc (suc (suc (suc (suc (suc (suc zero))))))))) h = refl
is_digit-pick (suc (suc (suc (suc (suc (suc (suc (suc (suc (suc n)))))))))) h = absurd (omega arith)

digits_of : (s : String) → is_digit s ≡ true → all_digits s ≡ true
unfolding is_digit
digits_of s h = ground arith

is_digit-append :
    (s t : String) → all_digits s ≡ true → is_digit t ≡ true → is_digit (append s t) ≡ true
unfolding is_digit
is_digit-append String.[] t h k = k
is_digit-append (String.◌∷◌ c s) t h k = all_digits-append (String.◌∷◌ c s) t h (digits_of t k)

all_digits-pad : (k n : ℕ) → all_digits (pad k n) ≡ true
unfolding pad
all_digits-pad zero n = refl
all_digits-pad (suc k) n =
    all_digits-append (pad k (n / 10)) (pick "0123456789" (n % 10)) (all_digits-pad k (n / 10))
      (digits_of (pick "0123456789" (n % 10)) (is_digit-pick (n % 10) (omega arith)))

pub is_digit-pad : (k n : ℕ) → is_digit (pad (suc k) n) ≡ true
unfolding pad
is_digit-pad k n =
    is_digit-append (pad k (n / 10)) (pick "0123456789" (n % 10)) (all_digits-pad k (n / 10))
      (is_digit-pick (n % 10) (omega arith))
