-- ===== src/Approval/Keys.antt =====
-- The ids of approvals under the changes that the state machine allows.
use devops_cd.Prelude.{
  ℕ, ◌+◌, ◌≤◌, ◌<◌, Bool, ◌&&◌, List, [], ◌∷◌, ◌≡◌, refl, arith, count, All, inl, inr, Bool-cases,
  ltb, leb, ◌==◌, if◌then◌else◌,
}
use devops_cd.State.{Approval, State}
use devops_cd.Approval.Evolution.{Evolves}

-- The ids are the primary key and below the auto-increment counter.
pub record IsKeyed (s : State) : Type 0 where
  pub fresh : All (λ (a : Approval). a.id < s.next_approval) s.approvals
  pub unique : (i : ℕ) → count (λ (a : Approval). a.id == i) s.approvals ≤ 1

abbrev pub has_key : ℕ → Approval → Bool
has_key i a = a.id == i

Evolves-le : (n m : ℕ) (ys : List Approval) → Evolves n [] m ys → n ≤ m
Evolves-le n m [] e = omega arith
Evolves-le n m (y ∷ ys) e = omega (arith, Evolves-le (n + 1) m ys e.1.1)

new_ids :
    (i n m : ℕ) (ys : List Approval)
    → Evolves n [] m ys
    → count (has_key i) ys ≤ (if leb n i && ltb i m then 1 else 0)
new_ids i n m [] e = omega arith
new_ids i n m (y ∷ ys) e =
    ground (arith, new_ids i (n + 1) m ys e.1.1, Evolves-le (n + 1) m ys e.1.1)

all_ids :
    (i n m : ℕ) (xs ys : List Approval)
    → Evolves n xs m ys
    → count (has_key i) ys ≤ count (has_key i) xs + (if leb n i && ltb i m then 1 else 0)
all_ids i n m [] ys e = omega (arith, new_ids i n m ys e)
all_ids i n m (x ∷ xs) [] e = absurd e
all_ids i n m (x ∷ xs) (y ∷ ys) e = ground (arith, all_ids i n m xs ys e.1, e.0.same_id)

old_ids :
    (i n : ℕ) (xs : List Approval)
    → All (λ (a : Approval). a.id < n) xs
    → n ≤ i
    → count (has_key i) xs ≡ 0
old_ids i n [] h le = refl
old_ids i n (x ∷ xs) h le = ground (arith, old_ids i n xs h.1 le)

new_fresh : (n m : ℕ) (ys : List Approval) → Evolves n [] m ys → All (λ (a : Approval). a.id < m) ys
new_fresh n m [] e = tt
new_fresh n m (y ∷ ys) e =
    (omega (arith, e.0, Evolves-le (n + 1) m ys e.1.1), new_fresh (n + 1) m ys e.1.1)

keys_fresh :
    (n m : ℕ) (xs ys : List Approval)
    → Evolves n xs m ys
    → n ≤ m
    → All (λ (a : Approval). a.id < n) xs
    → All (λ (a : Approval). a.id < m) ys
keys_fresh n m [] ys e le h = new_fresh n m ys e
keys_fresh n m (x ∷ xs) [] e le h = absurd e
keys_fresh n m (x ∷ xs) (y ∷ ys) e le h =
    (omega (arith, e.0.same_id, h.0), keys_fresh n m xs ys e.1 le h.1)

all_le : (n m : ℕ) (xs ys : List Approval) → Evolves n xs m ys → n ≤ m
all_le n m [] ys e = Evolves-le n m ys e
all_le n m (x ∷ xs) [] e = absurd e
all_le n m (x ∷ xs) (y ∷ ys) e = all_le n m xs ys e.1

key_unique :
    (i : ℕ) (s t : State)
    → Evolves s.next_approval s.approvals t.next_approval t.approvals
    → IsKeyed s
    → count (has_key i) t.approvals ≤ 1
key_unique i s t e k = elim (Bool-cases (leb s.next_approval i)) [
  | inl new ↦ ground (
    arith,
    all_ids i s.next_approval t.next_approval s.approvals t.approvals e,
    old_ids i s.next_approval s.approvals k.fresh,
  )
  | inr old ↦
      ground
        (arith, all_ids i s.next_approval t.next_approval s.approvals t.approvals e, k.unique i)
]

pub Evolves-IsKeyed :
    (s t : State)
    → Evolves s.next_approval s.approvals t.next_approval t.approvals
    → IsKeyed s
    → IsKeyed t
Evolves-IsKeyed s t e k = record {
  fresh =
      keys_fresh s.next_approval t.next_approval s.approvals t.approvals e
        (all_le s.next_approval t.next_approval s.approvals t.approvals e) k.fresh;
  unique = λ i. key_unique i s t e k;
}
