-- ===== src/System/Rounds.antt =====
-- The execution of an approval, and a round of the scheduler, are sequences of steps.
use devops_cd.Prelude.{
  ℕ, ◌+◌, String, false, Option, none, some, List, [], ◌∷◌, inl, inr, Bool-cases, if◌then◌else◌,
}
use devops_cd.Result.{Result, ok, err}
use devops_cd.State.{deploying, Params, Approval, State, User, same_status}
use devops_cd.Approval.Env.{Env}
use devops_cd.Approval.Execution.{
  Executor, RunResult, run_done, run_params, run_found, run_approval, claim_for_execution,
}
use devops_cd.Approval.Scheduler.{
  one_run, one_claimed, run_one, run_each, run_due_scheduled, requester_user,
}
use devops_cd.Deploy.Plan.{Site}
use devops_cd.Deploy.Executor.{execute_from_params}
use devops_cd.System.{Step, Reach}
use devops_cd.System.Traces.{Reach-trans, IsQuietSite, IsQuietRoute, execute_from_params-Reach}

module _ (c : Env) (execute : Executor) (quiet : IsQuietRoute execute) where
  run_done-Reach :
      (i : ℕ) (s : State) (r : Result RunResult × State) → Reach s r.1 → Reach s (run_done c i r).1
  run_done-Reach i s (err e, t) h = h
  run_done-Reach i s (ok r, t) h = Reach.next h (Step.settle c i r r.status)

  run_params-Reach :
      (i : ℕ) (u : User) (p : Result Params) (s : State) → Reach s (run_params c execute i u p s).1
  run_params-Reach i u (err e) s = Reach.here
  run_params-Reach i u (ok p) s =
      let q = record p { rollback = false; snapshot_approval = 0 } in
      run_done-Reach i s (execute q u p.rollback i s) (quiet q u p.rollback i s)

  run_found-Reach :
      (i : ℕ) (u : User) (o : Option Approval) (s : State) → Reach s (run_found c execute i u o s).1
  run_found-Reach i u none s = Reach.here
  run_found-Reach i u (some a) s = elim (Bool-cases (same_status a.status deploying)) [
    | inl on ↦ rw on (run_params-Reach i u _ s)
    | inr off ↦ rw off Reach.here
  ]

  pub run_approval-Reach : (i : ℕ) (u : User) (s : State) → Reach s (run_approval c execute i u s).1
  unfolding run_approval
  run_approval-Reach i u s = run_found-Reach i u _ s

  one_run-Reach :
      (i : ℕ) (s : State) (r : Result RunResult × State) → Reach s r.1 → Reach s (one_run c i r).1
  one_run-Reach i s (err e, t) h = Reach.next h (Step.handle c i e)
  one_run-Reach i s (ok r, t) h = h

  one_claimed-Reach :
      (i : ℕ) (s : State) (r : Result (Approval × User) × State)
      → Reach s r.1
      → Reach s (one_claimed c execute i r).1
  one_claimed-Reach i s (err e, t) h = Reach.next h (Step.handle c i e)
  one_claimed-Reach i s (ok (a, u), t) h =
      one_run-Reach i s (run_approval c execute i u t) (Reach-trans h (run_approval-Reach i u t))

  pub run_one-Reach :
      (i : ℕ) (requester : String) (s : State) → Reach s (run_one c execute i requester s).1
  unfolding run_one
  run_one-Reach i requester s =
      one_claimed-Reach i s (claim_for_execution c i (requester_user requester) s)
        (Reach.next Reach.here (Step.claim c i (requester_user requester)))

  run_each-Reach :
      (rows : List Approval) (n : ℕ) (s : State) → Reach s (run_each c execute rows n s).1
  unfolding run_each
  run_each-Reach [] n s = Reach.here
  run_each-Reach (row ∷ rows) n s = Reach-trans (run_one-Reach row.id row.requester s) (
      run_each-Reach rows (if (run_one c execute row.id row.requester s).0 then n + 1 else n)
        (run_one c execute row.id row.requester s).1)

  pub run_due_scheduled-Reach : (s : State) → Reach s (run_due_scheduled c execute s).1
  unfolding run_due_scheduled
  run_due_scheduled-Reach s = run_each-Reach _ 0 s

-- A round of the scheduler that deploys with `execute_from_params` is a sequence of the
-- transactions of `Step`, provided that what happens while a deployer or the K8S route runs is one.
pub scheduler_refines_steps :
    (c : Env) (site : Site) (k8s : Executor)
    → IsQuietSite site
    → IsQuietRoute k8s
    → (s : State) → Reach s (run_due_scheduled c (execute_from_params site k8s) s).1
scheduler_refines_steps c site k8s q k =
    run_due_scheduled-Reach c (execute_from_params site k8s)
      (execute_from_params-Reach site k8s q k)
