-- ===== src/Routes/Settling.antt =====
-- The routes that execute an approval do not leave it deploying.
use devops_cd.Prelude.{
  ℕ, String, Bool, true, false, ◌&&◌, ◌≡◌, refl, arith, inl, inr, Bool-cases, Option, none, some,
  List, [], ◌∷◌, ◌==◌, All, any, find_first, any-update, unique-find,
}
use devops_cd.Result.{Result, ok, err, OnOk, value_error}
use devops_cd.State.{
  deploying, deployed, approved, ApprovalStatus, Params, Approval, RunStatus, State, User,
  same_status,
}
use devops_cd.DeployRun.Records.{reset_pending_deploy_record}
use devops_cd.Approval.Env.{Env}
use devops_cd.Approval.Machine.{get_by_id, transition, move_row, eligible}
use devops_cd.Approval.Keys.{IsKeyed, has_key, Evolves-IsKeyed}
use devops_cd.Approval.Runs.{claim_for_execution-Later}
use devops_cd.Approval.Execution.{
  Executor, RunResult, settle, run_done, run_params, run_found, run_approval, load_params,
  claim_for_execution,
}
use devops_cd.Routes.Execute.{
  fail_execution, executed, after_claim, execute_approval, executed_event, stream_after_claim,
  execute_approval_stream,
}

-- The approval is deploying.
abbrev pub deploys : ℕ → Approval → Bool
deploys i a = a.id == i && same_status a.status deploying

abbrev pub IsSettled : ℕ → State → Type 0
IsSettled i s = any (deploys i) s.approvals ≡ false

transition-IsSettled :
    (now : String) (i : ℕ) (to : ApprovalStatus) (fields : Approval → Approval) (s : State)
    → same_status to deploying ≡ false
    → IsSettled i (transition now i (deploying ∷ []) to fields s).1
unfolding transition
transition-IsSettled now i to fields s h =
    any-update (deploys i) (eligible i (deploying ∷ [])) (move_row now to fields) s.approvals
      (λ x _. ground (arith, h)) (λ x miss. ground arith)

reset-approvals : (i : ℕ) (s : State) → (reset_pending_deploy_record i s).approvals ≡ s.approvals
unfolding reset_pending_deploy_record
reset-approvals i s = ground arith

fail-IsSettled : (c : Env) (i : ℕ) (s : State) → IsSettled i (fail_execution c i s)
unfolding fail_execution same_status
fail-IsSettled c i s =
    rw reset-approvals (transition-IsSettled c.now i ApprovalStatus.failed (λ a. a) s refl)

settle-IsSettled :
    (c : Env) (i : ℕ) (r : RunResult) (st : RunStatus) (s : State) → IsSettled i (settle c i r st s)
unfolding same_status
settle-IsSettled c i r RunStatus.ok s = transition-IsSettled c.now i deployed _ s refl
settle-IsSettled c i r RunStatus.busy s =
    rw reset-approvals (transition-IsSettled c.now i approved (λ a. a) s refl)
settle-IsSettled c i r RunStatus.cancelled s =
    transition-IsSettled c.now i ApprovalStatus.cancelled _ s refl
settle-IsSettled c i r RunStatus.failed s =
    transition-IsSettled c.now i ApprovalStatus.failed _ s refl

none_found :
    (i : ℕ) (xs : List Approval) → find_first (has_key i) xs ≡ none → any (deploys i) xs ≡ false
none_found i [] h = refl
none_found i (x ∷ xs) h = ground (arith, none_found i xs)

only-settled :
    (i : ℕ) (a : Approval) (xs : List Approval)
    → same_status a.status deploying ≡ false
    → All (λ x. has_key i x ≡ true → x ≡ a) xs
    → any (deploys i) xs ≡ false
only-settled i a [] h k = refl
only-settled i a (x ∷ xs) h k = elim (Bool-cases (x.id == i)) [
  | inl hit ↦ rw (k.0 hit, h, only-settled i a xs h k.1) (ground arith)
  | inr miss ↦ rw (miss, only-settled i a xs h k.1) refl
]

-- A run that returns has settled the approval; one that raises is followed by `fail_execution`.
abbrev IsRun : ℕ → Result RunResult × State → Type 0
IsRun i (ok r, s) = IsSettled i s
IsRun i (err e, s) = Unit

module _ (c : Env) (execute : Executor) (i : ℕ) (u : User) where
  run_done-IsRun : (r : Result RunResult × State) → IsRun i (run_done c i r)
  run_done-IsRun (err e, s) = tt
  run_done-IsRun (ok r, s) = settle-IsSettled c i r r.status s

  run_params-IsRun : (p : Result Params) (s : State) → IsRun i (run_params c execute i u p s)
  run_params-IsRun (err e) s = tt
  run_params-IsRun (ok p) s = run_done-IsRun _

  run_found-IsRun :
      (o : Option Approval) (s : State)
      → IsKeyed s
      → get_by_id i s ≡ o
      → IsRun i (run_found c execute i u o s)
  unfolding get_by_id
  run_found-IsRun none s k e = none_found i s.approvals e
  run_found-IsRun (some a) s k e = elim (Bool-cases (same_status a.status deploying)) [
    | inl on ↦ rw on (run_params-IsRun (load_params (value_error "json") a.params_json) s)
    | inr off ↦
        rw off
          (only-settled i a s.approvals off (unique-find (has_key i) a s.approvals (k.unique i) e))
  ]

  run_approval-IsRun : (s : State) → IsKeyed s → IsRun i (run_approval c execute i u s)
  unfolding run_approval
  run_approval-IsRun s k = run_found-IsRun (get_by_id i s) s k refl

executed-IsSettled :
    (c : Env) (i : ℕ) (r : Result RunResult × State)
    → IsRun i r
    → IsSettled i (executed c i r).1 × IsSettled i (executed_event c i r).1
executed-IsSettled c i (ok r, s) h = (h, h)
executed-IsSettled c i (err e, s) h = (fail-IsSettled c i s, fail-IsSettled c i s)

claimed-IsSettled :
    (c : Env) (execute : Executor) (i : ℕ) (r : Result (Approval × User) × State)
    → IsKeyed r.1
    → OnOk
        (λ _.
          IsSettled i (after_claim c execute i r).1
          × IsSettled i (stream_after_claim c execute i r).1)
        r.0
claimed-IsSettled c execute i (err e, s) k = tt
claimed-IsSettled c execute i (ok (a, u), s) k =
    executed-IsSettled c i (run_approval c execute i u s) (run_approval-IsRun c execute i u s k)

-- Where the ids of the approvals are in order and the claim of an approval succeeds, no approval
-- with the id is deploying when `execute_approval` has replied or raised, and none when
-- `execute_approval_stream` has ended, whatever the deployment does.
pub execution_settles :
    (c : Env) (execute : Executor) (i : ℕ) (u : User) (s : State)
    → IsKeyed s
    → OnOk
        (λ _.
          IsSettled i (execute_approval c execute i u s).1
          × IsSettled i (execute_approval_stream c execute i u s).1)
        (claim_for_execution c i u s).0
unfolding execute_approval execute_approval_stream
execution_settles c execute i u s k =
    claimed-IsSettled c execute i (claim_for_execution c i u s)
      (Evolves-IsKeyed s _ (claim_for_execution-Later c i u s) k)
