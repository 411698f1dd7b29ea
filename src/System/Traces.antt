-- ===== src/System/Traces.antt =====
-- The operations that consist of several transactions are sequences of steps: a deployment, the
-- execution of an approval, and a round of the scheduler.
use devops_cd.Prelude.{
  ℕ, String, Bool, Option, none, some, List, [], ◌∷◌, ◌≡◌, refl, ◌==◌, inl, inr, Bool-cases,
}
use devops_cd.Text.{is_empty}
use devops_cd.Result.{Result, ok, err, Error, value_error, OnOk}
use devops_cd.State.{Params, State, User}
use devops_cd.DeployRun.Records.{NewRecord, claim_pending_deploy_record}
use devops_cd.Approval.Execution.{Executor, RunResult}
use devops_cd.Deploy.Targets.{Target, get_targets}
use devops_cd.Deploy.Options.{Options}
use devops_cd.Deploy.Report.{overall}
use devops_cd.Deploy.Plan.{
  Outcome, Deployer, Site, Plan, open_as, open_record, start_if_none, as_busy, prepare, make_plan,
  checked_image, has_prefix, new_record,
}
use devops_cd.Deploy.Loop.{Ending, Progress, deploy_each, after_deploy, after_validate, add_result}
use devops_cd.Deploy.Service.{
  Executed, conclude, notify_finished, run_loop, run_opened, run_plan, execute, finish_with,
  output_of, finished_notice,
}
use devops_cd.Deploy.Closing.{overall-Stops, terminated-Stops, failed-Stops}
use devops_cd.Deploy.Executor.{ssh_done, execute_ssh, execute_from_params, as_result, ssh_fields}
use devops_cd.System.{Step, Reach}

pub Reach-trans : {s t u : State} → Reach s t → Reach t u → Reach s u
Reach-trans a Reach.here = a
Reach-trans a (Reach.next b x) = Reach.next (Reach-trans a b) x

pub one_step : {s t : State} → Step s t → Reach s t
one_step x = Reach.next Reach.here x

-- What a deployer's run does to the state are steps of others.
abbrev pub IsQuiet : Deployer → Type 0
IsQuiet d =
    (t : Target) (o : Options) (image key tag : String) (s : State)
    → Reach s (d.deploy t o image key tag s).1

as_busy-Reach : (s : State) (r : Result ℕ × State) → Reach s r.1 → Reach s (as_busy r).1
as_busy-Reach s (ok d, t) h = h
as_busy-Reach s (err (value_error m), t) h = h
as_busy-Reach s (err (Error.app code key), t) h = h
as_busy-Reach s (err (Error.not_found key), t) h = h
as_busy-Reach s (err (Error.conflict key), t) h = h
as_busy-Reach s (err (Error.validation key), t) h = h
as_busy-Reach s (err (Error.http code), t) h = h
as_busy-Reach s (err (Error.unexpected m), t) h = h

start_if_none-Reach :
    (site : Site) (new : NewRecord) (s : State) (r : Result ℕ × State)
    → Reach s r.1
    → Reach s (start_if_none site new r).1
start_if_none-Reach site new s (err e, t) h = h
start_if_none-Reach site new s (ok d, t) h = elim (Bool-cases (d == 0)) [
  | inl fresh ↦ rw fresh (Reach.next h (Step.start site.env.instance_id site.env.epoch new))
  | inr claimed ↦ rw claimed h
]

pub open_as-Reach :
    (site : Site) (project_key : String) (i : ℕ) (new : NewRecord) (s : State)
    → Reach s (open_as site project_key i new s).1
unfolding open_as
open_as-Reach site project_key i new s =
    let r = claim_pending_deploy_record site.env.instance_id site.env.epoch project_key i s in
    as_busy-Reach s (start_if_none site new r) (
      start_if_none-Reach site new s r
        (one_step (Step.claim_record site.env.instance_id site.env.epoch project_key i)))

open_record-Reach : (site : Site) (plan : Plan) (s : State) → Reach s (open_record site plan s).1
unfolding open_record
open_record-Reach site plan s =
    open_as-Reach site plan.project_key plan.approval_id (new_record plan) s

add_result-Reach :
    (plan : Plan) (t : Target) (status output : String) (s : State) (r : Progress × State)
    → Reach s r.1
    → Reach s (add_result plan t status output r).1
add_result-Reach plan t status output s (g, u) h = h

after_deploy-Reach :
    (plan : Plan) (t : Target) (go : State → Progress × State) (s : State) (r : Outcome × State)
    → ((u : State) → Reach u (go u).1)
    → Reach s r.1
    → Reach s (after_deploy plan t go r).1
after_deploy-Reach plan t go s (Outcome.finished status output, u) k h =
    add_result-Reach plan t status output s (go u) (Reach-trans h (k u))
after_deploy-Reach plan t go s (Outcome.cancelled, u) k h = h
after_deploy-Reach plan t go s (Outcome.raised m, u) k h =
    add_result-Reach plan t "failed" m s (go u) (Reach-trans h (k u))

after_validate-Reach :
    (plan : Plan) (t : Target) (go : State → Progress × State) (r : Result String) (s : State)
    → IsQuiet plan.deployer
    → ((u : State) → Reach u (go u).1)
    → Reach s (after_validate plan t go r s).1
after_validate-Reach plan t go (err e) s q k = Reach.here
after_validate-Reach plan t go (ok problem) s q k = elim (Bool-cases (is_empty problem)) [
  | inl fine ↦ rw fine (after_deploy-Reach plan t go s _ k (q t _ _ _ _ s))
  | inr bad ↦ rw bad (add_result-Reach plan t "failed" problem s (go s) (k s))
]

deploy_each-Reach :
    (plan : Plan) (ts : List Target) (s : State)
    → IsQuiet plan.deployer
    → Reach s (deploy_each plan ts s).1
unfolding deploy_each
deploy_each-Reach plan [] s q = Reach.here
deploy_each-Reach plan (t ∷ ts) s q =
    after_validate-Reach plan t _ _ s q (λ u. deploy_each-Reach plan ts u q)

notify_finished-Reach :
    (plan : Plan) (g : Progress) (s t : State) → Reach s t → Reach s (notify_finished plan g t)
notify_finished-Reach plan g s t h = elim (Bool-cases (plan.params.bot_id == 0)) [
  | inl silent ↦ rw silent h
  | inr bot ↦ rw bot (Reach.next h (Step.notified (finished_notice plan g)))
]

conclude-Reach :
    (site : Site) (plan : Plan) (d : ℕ) (g : Progress) (e : Ending) (s : State)
    → Reach s (conclude site plan d g e s).1
unfolding conclude
conclude-Reach site plan d g Ending.done s =
    notify_finished-Reach plan g s
      (finish_with site plan d g (overall g.results) (output_of plan g) s)
      (one_step (Step.finish site.env.settings d _ (overall-Stops g.results)))
conclude-Reach site plan d g Ending.cancelled s =
    one_step (Step.finish site.env.settings d _ terminated-Stops)
conclude-Reach site plan d g (Ending.raised e) s =
    one_step (Step.finish site.env.settings d _ failed-Stops)

run_loop-Reach :
    (site : Site) (plan : Plan) (d : ℕ) (s : State)
    → IsQuiet plan.deployer
    → Reach s (run_loop site plan d s).1
run_loop-Reach site plan d s q = Reach-trans (deploy_each-Reach plan plan.targets s q) (
    conclude-Reach site plan d (deploy_each plan plan.targets s).0
      (deploy_each plan plan.targets s).0.ending (deploy_each plan plan.targets s).1)

run_opened-Reach :
    (site : Site) (plan : Plan) (s : State) (r : Result ℕ × State)
    → IsQuiet plan.deployer
    → Reach s r.1
    → Reach s (run_opened site plan r).1
run_opened-Reach site plan s (err e, t) q h = h
run_opened-Reach site plan s (ok d, t) q h =
    Reach.next (Reach-trans (Reach.next h (Step.register d)) (run_loop-Reach site plan d _ q))
      (Step.unregister d)

-- Every deployer of the registry is quiet.
abbrev pub IsQuietSite : Site → Type 0
IsQuietSite site = (name : String) (d : Deployer) → site.deployers name ≡ some d → IsQuiet d

run_plan-Reach :
    (site : Site) (r : Result Plan) (s : State)
    → OnOk (λ plan. IsQuiet plan.deployer) r
    → Reach s (run_plan site r s).1
run_plan-Reach site (err e) s q = Reach.here
run_plan-Reach site (ok plan) s q =
    run_opened-Reach site plan s (open_record site plan s) q (open_record-Reach site plan s)

make_plan-IsQuiet :
    (site : Site) (p : Params) (user : Option User) (i : ℕ) (r : Result String)
    (o : Option Deployer) (ts : Result (List Target))
    → ((d : Deployer) → o ≡ some d → IsQuiet d)
    → OnOk (λ plan. IsQuiet plan.deployer) (make_plan site p user i r o ts)
make_plan-IsQuiet site p user i (err e) o ts q = tt
make_plan-IsQuiet site p user i (ok image) none ts q = tt
make_plan-IsQuiet site p user i (ok image) (some d) (err e) q = tt
make_plan-IsQuiet site p user i (ok image) (some d) (ok []) q = tt
make_plan-IsQuiet site p user i (ok image) (some d) (ok (t ∷ ts)) q = q d refl

-- A deployment is a sequence of steps, if what happens while a deployer runs is.
pub execute-Reach :
    (site : Site) (p : Params) (user : Option User) (i : ℕ) (s : State)
    → IsQuietSite site
    → Reach s (execute site p user i s).1
unfolding execute prepare
execute-Reach site p user i s q = run_plan-Reach site (prepare site p user i s) s (
    make_plan-IsQuiet site p user i (checked_image site p user s) (site.deployers p.deploy_type)
      (get_targets site.decrypt p.server_ids s) (q p.deploy_type))

-- The K8S route is a sequence of steps too.
abbrev pub IsQuietRoute : Executor → Type 0
IsQuietRoute k8s =
    (p : Params) (u : User) (rollback : Bool) (i : ℕ) (s : State) → Reach s (k8s p u rollback i s).1

ssh_done-Reach : (s : State) (r : Result Executed × State) → Reach s r.1 → Reach s (ssh_done r).1
ssh_done-Reach s (ok x, t) h = h
ssh_done-Reach s (err e, t) h = h

pub as_result-Reach :
    (s : State) (r : Result RunResult × State) → Reach s r.1 → Reach s (as_result r).1
as_result-Reach s (ok x, t) h = h
as_result-Reach s (err e, t) h = h

execute_ssh-Reach :
    (site : Site) (p : Params) (u : User) (i : ℕ) (s : State)
    → IsQuietSite site
    → Reach s (execute_ssh site p u i s).1
unfolding execute_ssh
execute_ssh-Reach site p u i s q =
    ssh_done-Reach s (execute site (ssh_fields p) (some u) i s)
      (execute-Reach site (ssh_fields p) (some u) i s q)

pub execute_from_params-Reach :
    (site : Site) (k8s : Executor)
    → IsQuietSite site
    → IsQuietRoute k8s
    → IsQuietRoute (execute_from_params site k8s)
unfolding execute_from_params
execute_from_params-Reach site k8s q k p u rollback i s =
    elim (Bool-cases (has_prefix "k8s/" p.deploy_type)) [
      | inl cluster ↦ rw cluster (as_result-Reach s (k8s p u rollback i s) (k p u rollback i s))
      | inr ssh ↦
          rw ssh (as_result-Reach s (execute_ssh site p u i s) (execute_ssh-Reach site p u i s q))
    ]
