-- ===== src/Approval/Evolution.antt =====
-- The state machine of approvals: its edges, and how the table may change from one moment to a
-- later one.
use devops_cd.Prelude.{
  ℕ, ◌+◌, String, Bool, true, false, List, [], ◌∷◌, ◌++◌, ◌≡◌, refl, ◌∙◌, arith, update,
  if◌then◌else◌, inl, inr, ◌⊎◌, All,
}
use devops_cd.State.{
  ApprovalStatus, pending, approved, deploying, deployed, failed, rejected, cancelled, Approval,
  same_status,
}
use devops_cd.Approval.Perms.{same_person}
use devops_cd.Approval.Machine.{move_row}

-- The edges. The head of backend/services/approval_service.py lists them but for the last two,
-- which a busy project or a recovery, and a cancelled deployment, take.
pub data Edge : ApprovalStatus → ApprovalStatus → Type 0 where
  approve : Edge pending approved
  reject : Edge pending rejected
  cancel_pending : Edge pending cancelled
  cancel_approved : Edge approved cancelled
  claim : Edge approved deploying
  deploy : Edge deploying deployed
  fail : Edge deploying failed
  give_back : Edge deploying approved
  cancel_deploying : Edge deploying cancelled

pub data Reaches (a : ApprovalStatus) : ApprovalStatus → Type 0 where
  here : Reaches a a
  next : {b d : ApprovalStatus} → Reaches a b → Edge b d → Reaches a d

pub Reaches-trans : {a b d : ApprovalStatus} → Reaches a b → Reaches b d → Reaches a d
Reaches-trans r here = r
Reaches-trans r (next q e) = next (Reaches-trans r q) e

pub one : {a b : ApprovalStatus} → Edge a b → Reaches a b
one e = next here e

-- Whoever is recorded as the approver is not the requester.
abbrev pub IsReviewed : Approval → Type 0
IsReviewed a = same_person a.requester a.approver ≡ false

-- What an approval is about never changes, its status moves along the edges, and an approver that
-- is recorded anew is not the requester.
pub record Follows (x y : Approval) : Type 0 where
  pub same_id : y.id ≡ x.id
  pub same_requester : y.requester ≡ x.requester
  pub same_params : y.params_json ≡ x.params_json
  pub same_project : y.project ≡ x.project
  pub moves : Reaches x.status y.status
  pub judged : (y.approver ≡ x.approver) ⊎ IsReviewed y

judged_trans :
    (x y z : Approval)
    → z.requester ≡ y.requester
    → (y.approver ≡ x.approver) ⊎ IsReviewed y
    → (z.approver ≡ y.approver) ⊎ IsReviewed z
    → (z.approver ≡ x.approver) ⊎ IsReviewed z
judged_trans x y z e f (inr g) = inr g
judged_trans x y z e (inl f) (inl g) = inl (g ∙ f)
judged_trans x y z e (inr f) (inl g) = inr (rw (e, g) f)

-- An approver that is not the requester is never replaced by the requester.
pub Follows-IsReviewed : (x y : Approval) → Follows x y → IsReviewed x → IsReviewed y
Follows-IsReviewed x y f h = elim f.judged [ inl e ↦ rw (f.same_requester, e) h | inr g ↦ g ]

pub Follows-refl : (x : Approval) → Follows x x
Follows-refl x = record {
  same_id = refl;
  same_requester = refl;
  same_params = refl;
  same_project = refl;
  moves = here;
  judged = inl refl;
}

pub Follows-trans : (x y z : Approval) → Follows x y → Follows y z → Follows x z
Follows-trans x y z f g = record {
  same_id = g.same_id ∙ f.same_id;
  same_requester = g.same_requester ∙ f.same_requester;
  same_params = g.same_params ∙ f.same_params;
  same_project = g.same_project ∙ f.same_project;
  moves = Reaches-trans f.moves g.moves;
  judged = judged_trans x y z g.same_requester f.judged g.judged;
}

-- From a table whose next id is `n` to one whose next id is `m`: no row goes away or changes its
-- place, and the new rows at the end have the ids from `n` on, one after another, and no approver
-- who is the requester.
abbrev pub Evolves : ℕ → List Approval → ℕ → List Approval → Type 0
Evolves n [] m [] = m ≡ n
Evolves n [] m (y ∷ ys) = (y.id ≡ n) × (IsReviewed y × Evolves (n + 1) [] m ys)
Evolves n (x ∷ xs) m [] = ⊥
Evolves n (x ∷ xs) m (y ∷ ys) = Follows x y × Evolves n xs m ys

pub Evolves-refl : (n : ℕ) (xs : List Approval) → Evolves n xs n xs
Evolves-refl n [] = refl
Evolves-refl n (x ∷ xs) = (Follows-refl x, Evolves-refl n xs)

pub Evolves-trans :
    (k n m : ℕ) (xs ys zs : List Approval)
    → Evolves k xs n ys
    → Evolves n ys m zs
    → Evolves k xs m zs
Evolves-trans k n m [] [] zs f g = rw (← f) g
Evolves-trans k n m [] (y ∷ ys) [] f g = absurd g
Evolves-trans k n m [] (y ∷ ys) (z ∷ zs) f g = (
  g.0.same_id ∙ f.0,
  (Follows-IsReviewed y z g.0 f.1.0, Evolves-trans (k + 1) n m [] ys zs f.1.1 g.1),
)
Evolves-trans k n m (x ∷ xs) [] zs f g = absurd f
Evolves-trans k n m (x ∷ xs) (y ∷ ys) [] f g = absurd g
Evolves-trans k n m (x ∷ xs) (y ∷ ys) (z ∷ zs) f g =
    (Follows-trans x y z f.0 g.0, Evolves-trans k n m xs ys zs f.1 g.1)

pub Evolves-append :
    (n : ℕ) (xs : List Approval) (y : Approval)
    → y.id ≡ n
    → IsReviewed y
    → Evolves n xs (n + 1) (xs ++ y ∷ [])
Evolves-append n [] y e h = (e, (h, refl))
Evolves-append n (x ∷ xs) y e h = (Follows-refl x, Evolves-append n xs y e h)

Follows-if : (x y : Approval) (b : Bool) → (b ≡ true → Follows x y) → Follows x (if b then y else x)
Follows-if x y true h = h refl
Follows-if x y false h = Follows-refl x

pub Evolves-update :
    (n : ℕ) (p : Approval → Bool) (f : Approval → Approval) (xs : List Approval)
    → All (λ x. p x ≡ true → Follows x (f x)) xs
    → Evolves n xs n (update p f xs)
Evolves-update n p f [] h = refl
Evolves-update n p f (x ∷ xs) h = (Follows-if x (f x) (p x) h.0, Evolves-update n p f xs h.1)

pub All-of {ℓ} : {P : Approval → Type ℓ} (xs : List Approval) → ((x : Approval) → P x) → All P xs
All-of [] h = tt
All-of (x ∷ xs) h = (h x, All-of xs h)

-- A change of status by `_transition`: the further columns, then the status along an edge.
pub Follows-move_row :
    (now : String) (to : ApprovalStatus) (fields : Approval → Approval) (x : Approval)
    → Follows x (record (fields x) { status = x.status })
    → Edge x.status to
    → Follows x (move_row now to fields x)
Follows-move_row now to fields x f e = record {
  same_id = f.same_id;
  same_requester = f.same_requester;
  same_params = f.same_params;
  same_project = f.same_project;
  moves = one e;
  judged = f.judged;
}

-- A status from which no edge leaves.
abbrev pub is_final : ApprovalStatus → Bool
is_final deployed = true
is_final failed = true
is_final rejected = true
is_final cancelled = true
is_final _ = false

final_edge : {a b : ApprovalStatus} → Edge a b → is_final a ≡ true → ⊥
final_edge approve h = cc
final_edge reject h = cc
final_edge cancel_pending h = cc
final_edge cancel_approved h = cc
final_edge claim h = cc
final_edge deploy h = cc
final_edge fail h = cc
final_edge give_back h = cc
final_edge cancel_deploying h = cc

pub final_stays : {a b : ApprovalStatus} → Reaches a b → is_final a ≡ true → b ≡ a
final_stays here h = refl
final_stays (next r e) h = absurd (final_edge e (rw (final_stays r h) h))

pub same_status-eq : (a b : ApprovalStatus) → same_status a b ≡ true → a ≡ b
unfolding same_status
same_status-eq pending b h = ground arith
same_status-eq _ b h = ground arith

pub same_status_refl : (a : ApprovalStatus) → same_status a a ≡ true
unfolding same_status
same_status_refl pending = refl
same_status_refl _ = refl
