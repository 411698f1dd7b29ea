-- ===== src/Approval/Claiming.antt =====
-- When an approval is claimed for execution, and that it is claimed once.
use devops_cd.Prelude.{
  ℕ, String, Bool, true, false, ◌&&◌, Option, none, some, List, [], ◌∷◌, ◌≡◌, refl, arith, any,
  update, count-eq-zero, any-update, inl, inr, Bool-cases, not, ◌||◌, str_eq,
}
use devops_cd.Text.{contains}
use devops_cd.Result.{Result, ok, err, conflict, validation, and_then}
use devops_cd.Auth.Context.{Identity, identity_disabled, has_system, admit, load_user_context}
use devops_cd.Auth.Perms.{resolve_deploy_perm, enforce_deploy_perm}
use devops_cd.State.{
  ApprovalStatus, approved, deploying, Approval, State, User, same_status, Settings, Params,
  ParamsJson, blank, snapshot, corrupt,
}
use devops_cd.Approval.Env.{Env}
use devops_cd.Approval.Perms.{is_owner, is_approved, is_super}
use devops_cd.Approval.Machine.{get_by_id, transition, eligible, move_row}
use devops_cd.Approval.Execution.{
  claim_for_execution, claim_found, claim_checked, claim_done, execution_user, no_params,
  load_params, enforce_execute_perm,
}
use devops_cd.Approval.Keys.{IsKeyed}
use devops_cd.Approval.Transition.{transition-success, fits}
use devops_cd.Approval.Judging.{applies}

abbrev pub is_result {ℓ} : {A : Type ℓ} → Result A → Bool
is_result (ok a) = true
is_result (err e) = false

-- The permissions `held` of somebody with the role suffice for the parameters: a rollback needs
-- cd.deploy-manage, anything else that or the permission for its type.
abbrev pub permits : Settings → String → List String → Params → Bool
permits c role held p =
    (str_eq role c.super_admin_role || (contains "*" held || contains "cd.deploy-manage" held))
    || (not p.rollback && contains (resolve_deploy_perm p.deploy_type "") held)

-- A snapshot that cannot be read permits nothing, and an empty one stands for no parameters.
abbrev pub permits_stored : Settings → Identity → ParamsJson → Bool
permits_stored c i blank = permits c i.role i.permissions no_params
permits_stored c i (snapshot p) = permits c i.role i.permissions p
permits_stored c i corrupt = false

-- The identity is known, enabled, may use the system, and has the permission for the parameters.
abbrev pub may_run : Settings → Result Identity → ParamsJson → Bool
may_run c (err e) p = false
may_run c (ok i) p =
    not (identity_disabled i) && (has_system c i.systems "cd" && permits_stored c i p)

-- `u` asked for the deployment, and the requester, looked up anew, may run it.
abbrev pub may_claim : Env → User → Approval → Bool
may_claim c u a = is_owner a u && may_run c.settings (c.directory a.requester) a.params_json

-- What is left once the user is there.
abbrev user_checked : Settings → ParamsJson → User → Result User
user_checked c json u =
    and_then (load_params (validation "errors.approval_params_invalid") json)
      λ p. and_then (enforce_execute_perm c p u) λ _. ok u

checked-permits :
    (c : Settings) (p : Params) (u : User)
    → is_result (and_then (enforce_execute_perm c p u) λ _. ok u) ≡ permits c u.role u.permissions p
unfolding enforce_execute_perm enforce_deploy_perm is_super
checked-permits c p u = ground arith

stored-permits :
    (c : Settings) (i : Identity) (u : User) (json : ParamsJson)
    → u.role ≡ i.role
    → u.permissions ≡ i.permissions
    → is_result (user_checked c json u) ≡ permits_stored c i json
stored-permits c i u blank r q = rw (← r, ← q) (checked-permits c no_params u)
stored-permits c i u (snapshot p) r q = rw (← r, ← q) (checked-permits c p u)
stored-permits c i u corrupt r q = refl

loaded-permits :
    (c : Settings) (name : String) (r : Result Identity) (json : ParamsJson)
    → is_result (and_then (and_then r (admit c name)) (user_checked c json)) ≡ may_run c r json
loaded-permits c name (err e) json = refl
loaded-permits c name (ok i) json = elim (Bool-cases (identity_disabled i)) [
  | inl off ↦ rw off refl
  | inr on ↦ rw on (elim (Bool-cases (has_system c i.systems "cd")) [
    | inr stranger ↦ rw stranger refl
    | inl member ↦ rw member (stored-permits c i _ json refl refl)
  ])
]

execution_user-permits :
    (c : Env) (a : Approval)
    → is_result (execution_user c a) ≡ may_run c.settings (c.directory a.requester) a.params_json
unfolding execution_user load_user_context
execution_user-permits c a =
    loaded-permits c.settings a.requester (c.directory a.requester) a.params_json

fits_approved : (a : Approval) → is_approved a.status ≡ fits (approved ∷ []) a
unfolding same_status
fits_approved a = elim a.status as (λ z. is_approved z ≡ any (same_status z) (approved ∷ [])) [
  | ApprovalStatus.pending ↦ refl
  | ApprovalStatus.approved ↦ refl
  | ApprovalStatus.deploying ↦ refl
  | ApprovalStatus.deployed ↦ refl
  | ApprovalStatus.failed ↦ refl
  | ApprovalStatus.rejected ↦ refl
  | ApprovalStatus.cancelled ↦ refl
]

claim_done-result :
    (i : ℕ) (a : Approval) (u : User) (r : Bool × State) → is_result (claim_done i a u r).0 ≡ r.0
claim_done-result i a u (false, s) = refl
claim_done-result i a u (true, s) = refl

claim_checked-result :
    (c : Env) (i : ℕ) (a : Approval) (r : Result User) (s : State)
    → IsKeyed s
    → get_by_id i s ≡ some a
    → is_result (claim_checked c i a r s).0 ≡ (fits (approved ∷ []) a && is_result r)
claim_checked-result c i a (err e) s k f = ground arith
claim_checked-result c i a (ok u) s k f = ground (
  arith,
  claim_done-result i a u (transition c.now i (approved ∷ []) deploying (λ r. r) s),
  transition-success c.now i (approved ∷ []) deploying (λ r. r) s a k f,
)

claim_found-result :
    (c : Env) (i : ℕ) (u : User) (o : Option Approval) (s : State)
    → IsKeyed s
    → get_by_id i s ≡ o
    → is_result (claim_found c i u o s).0 ≡ applies (approved ∷ []) (may_claim c u) o
claim_found-result c i u none s k e = refl
claim_found-result c i u (some a) s k e = elim (Bool-cases (is_owner a u)) [
  | inr other ↦ rw other (ground arith)
  | inl own ↦ rw own (elim (Bool-cases (is_approved a.status)) [
    | inr early ↦ rw early (ground (arith, fits_approved a))
    | inl ready ↦
        rw (ready, ← execution_user-permits c a)
          (claim_checked-result c i a (execution_user c a) s k e)
  ])
]

-- Where the ids of the approvals are in order, a claim succeeds exactly where an approval has the id,
-- it is approved, the user asked for it, its parameters can be read, and the requester, looked up
-- anew, is known, enabled, may use the system, and has the permission: the administrator's role, the
-- wildcard or cd.deploy-manage, or, but for a rollback, the permission for the type.
pub claim_success :
    (c : Env) (i : ℕ) (u : User) (s : State)
    → IsKeyed s
    → is_result (claim_for_execution c i u s).0
      ≡ applies (approved ∷ []) (may_claim c u) (get_by_id i s)
unfolding claim_for_execution
claim_success c i u s k = claim_found-result c i u (get_by_id i s) s k refl

module _ (now : String) (i : ℕ) (from : List ApprovalStatus) (to : ApprovalStatus)
    (fields : Approval → Approval) where
  moved_away :
      (xs : List Approval)
      → any (same_status to) from ≡ false
      → any (eligible i from) (update (eligible i from) (move_row now to fields) xs) ≡ false
  moved_away xs h =
      any-update (eligible i from) (eligible i from) (move_row now to fields) xs
        (λ x _. rw h (ground arith)) (λ x e. e)

  -- After an attempt no row is left that a second attempt would change.
  transition-twice :
      (later : String) (target : ApprovalStatus) (g : Approval → Approval) (s : State)
      → any (same_status to) from ≡ false
      → (transition later i from target g (transition now i from to fields s).1).0 ≡ false
  unfolding transition
  transition-twice later target g s h =
      rw
        (count-eq-zero (eligible i from)
          (update (eligible i from) (move_row now to fields) s.approvals)
          (moved_away s.approvals h))
        refl

not_approved : any (same_status deploying) (approved ∷ []) ≡ false
unfolding same_status
not_approved = refl

claim_done-State :
    (i : ℕ) (a : Approval) (u : User) (r : Bool × State) → (claim_done i a u r).1 ≡ r.1
claim_done-State i a u (false, s) = refl
claim_done-State i a u (true, s) = refl

lost_claim :
    (i : ℕ) (a : Approval) (u : User) (r : Bool × State)
    → r.0 ≡ false
    → (claim_done i a u r).0 ≡ err (conflict "errors.approval_not_executable")
lost_claim i a u (false, s) h = refl
lost_claim i a u (true, s) h = absurd (ground arith)

-- Of two claims of one approval that have both passed their checks, each on whatever it read
-- before, the second one to reach the database gets the conflict.
pub claim_once :
    (c d : Env) (i : ℕ) (a b : Approval) (u v : User) (s : State)
    → (claim_checked d i b (ok v) (claim_checked c i a (ok u) s).1).0
      ≡ err (conflict "errors.approval_not_executable")
claim_once c d i a b u v s =
    let first = transition c.now i (approved ∷ []) deploying (λ r. r) s in
    lost_claim i b v _ (
      rw (claim_done-State i a u first) (
        transition-twice c.now i (approved ∷ []) deploying (λ r. r) d.now deploying (λ r. r) s
          not_approved))
