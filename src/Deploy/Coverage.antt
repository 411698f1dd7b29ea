-- ===== src/Deploy/Coverage.antt =====
-- What a reply says of the servers of a deployment.
use devops_cd.Prelude.{
  ℕ, ◌≤◌, String, Bool, true, false, not, ◌&&◌, ◌⊎◌, Option, none, some, List, [], ◌∷◌, ◌++◌, ◌≡◌,
  refl, ap, arith, inl, inr, Bool-cases, length, count,
}
use devops_cd.Text.{is_empty}
use devops_cd.Result.{Result, ok, err, OnOk}
use devops_cd.State.{Params, State, User}
use devops_cd.DeployRun.Signals
use devops_cd.Deploy.Targets.{Target, get_targets}
use devops_cd.Deploy.Report.{ServerResult, is_ok, all_ok}
use devops_cd.Deploy.Plan.{
  Outcome, Deployer, Site, Plan, prepare, make_plan, checked_image, open_record,
}
use devops_cd.Deploy.Loop.{Progress, Ending, deploy_each, after_deploy, after_validate, add_result}
use devops_cd.Deploy.Service.{Executed, conclude, run_opened, run_plan, execute}

abbrev pub ids_of : List ServerResult → List ℕ
ids_of [] = []
ids_of (r ∷ rs) = r.server_id ∷ ids_of rs

abbrev pub target_ids : List Target → List ℕ
target_ids [] = []
target_ids (t ∷ ts) = t.id ∷ target_ids ts

abbrev pub every_ok : List ServerResult → Bool
every_ok [] = true
every_ok (r ∷ rs) = is_ok r && every_ok rs

-- The results are those of the first servers, in the order of the servers; without a cancel they
-- are those of all of them; and a success is that every result is "ok".
pub record Covers (ts : List Target) (x : Executed) : Type 0 where
  pub prefix : (rest : List ℕ) × (target_ids ts ≡ ids_of x.results ++ rest)
  pub whole : (x.cancelled ≡ true) ⊎ (ids_of x.results ≡ target_ids ts)
  pub verdict : x.success ≡ (not x.cancelled && every_ok x.results)

count-le-length : (rs : List ServerResult) → count is_ok rs ≤ length rs
count-le-length [] = omega arith
count-le-length (r ∷ rs) = ground (arith, count-le-length rs)

-- The successes are as many as the results exactly if each result is one.
all_ok_lem : (rs : List ServerResult) → all_ok rs ≡ every_ok rs
all_ok_lem [] = refl
all_ok_lem (r ∷ rs) = ground (arith, count-le-length rs, all_ok_lem rs)

-- Where the loop has come to an end.
abbrev is_done : Ending → Bool
is_done Ending.done = true
is_done Ending.cancelled = false
is_done (Ending.raised e) = false

abbrev Walked : List Target → Progress → Type 0
Walked ts g =
    ((rest : List ℕ) × (target_ids ts ≡ ids_of g.results ++ rest))
    × (is_done g.ending ≡ true → ids_of g.results ≡ target_ids ts)

stop-Walked :
    (ts : List Target) (e : Ending)
    → is_done e ≡ false
    → Walked ts (record { results = []; stages = []; ending = e })
stop-Walked ts e h = ((target_ids ts, refl), λ k. absurd (ground arith))

add_result-Walked :
    (plan : Plan) (t : Target) (ts : List Target) (status output : String) (r : Progress × State)
    → Walked ts r.0
    → Walked (t ∷ ts) (add_result plan t status output r).0
add_result-Walked plan t ts status output (g, s) ((rest, e), w) =
    ((rest, ap (λ xs. t.id ∷ xs) e), λ d. ap (λ xs. t.id ∷ xs) (w d))

after_deploy-Walked :
    (plan : Plan) (t : Target) (ts : List Target) (go : State → Progress × State)
    (r : Outcome × State)
    → ((u : State) → Walked ts (go u).0)
    → Walked (t ∷ ts) (after_deploy plan t go r).0
after_deploy-Walked plan t ts go (Outcome.finished status output, u) k =
    add_result-Walked plan t ts status output (go u) (k u)
after_deploy-Walked plan t ts go (Outcome.cancelled, u) k =
    stop-Walked (t ∷ ts) Ending.cancelled refl
after_deploy-Walked plan t ts go (Outcome.raised m, u) k =
    add_result-Walked plan t ts "failed" m (go u) (k u)

after_validate-Walked :
    (plan : Plan) (t : Target) (ts : List Target) (go : State → Progress × State)
    (r : Result String) (s : State)
    → ((u : State) → Walked ts (go u).0)
    → Walked (t ∷ ts) (after_validate plan t go r s).0
after_validate-Walked plan t ts go (err e) s k = stop-Walked (t ∷ ts) (Ending.raised e) refl
after_validate-Walked plan t ts go (ok problem) s k = elim (Bool-cases (is_empty problem)) [
  | inl fine ↦ rw fine (
      after_deploy-Walked plan t ts go
        (plan.deployer.deploy t plan.options plan.image plan.project_key plan.params.tag s) k)
  | inr bad ↦ rw bad (add_result-Walked plan t ts "failed" problem (go s) (k s))
]

deploy_each-Walked :
    (plan : Plan) (ts : List Target) (s : State) → Walked ts (deploy_each plan ts s).0
unfolding deploy_each
deploy_each-Walked plan [] s = (([], refl), λ _. refl)
deploy_each-Walked plan (t ∷ ts) s =
    after_validate-Walked plan t ts _ (plan.deployer.validate t plan.options) s
      (λ u. deploy_each-Walked plan ts u)

conclude-Covers :
    (site : Site) (plan : Plan) (ts : List Target) (d : ℕ) (g : Progress) (e : Ending) (s : State)
    → g.ending ≡ e
    → Walked ts g
    → OnOk (Covers ts) (conclude site plan d g e s).0
unfolding conclude
conclude-Covers site plan ts d g Ending.done s h (p, w) = record {
  prefix = p;
  whole = inr (w (ap is_done h));
  verdict = all_ok_lem g.results;
}
conclude-Covers site plan ts d g Ending.cancelled s h (p, w) = record {
  prefix = p;
  whole = inl refl;
  verdict = refl;
}
conclude-Covers site plan ts d g (Ending.raised e) s h w = tt

run_opened-Covers :
    (site : Site) (plan : Plan) (r : Result ℕ × State)
    → OnOk (Covers plan.targets) (run_opened site plan r).0
run_opened-Covers site plan (err e, s) = tt
run_opened-Covers site plan (ok d, s) =
    let t = record s { events = Signals.register d s.events } in
    let (g, u) = deploy_each plan plan.targets t in
    conclude-Covers site plan plan.targets d g g.ending u refl
      (deploy_each-Walked plan plan.targets t)

make_plan-Covers :
    (site : Site) (p : Params) (user : Option User) (i : ℕ) (r : Result String)
    (o : Option Deployer) (ts : List Target) (s : State)
    → OnOk (Covers ts) (run_plan site (make_plan site p user i r o (ok ts)) s).0
make_plan-Covers site p user i (err e) o ts s = tt
make_plan-Covers site p user i (ok image) none ts s = tt
make_plan-Covers site p user i (ok image) (some d) [] s = tt
make_plan-Covers site p user i (ok image) (some d) (t ∷ ts) s =
    run_opened-Covers site _ (open_record site _ s)

-- When `execute` replies, its results are those of the first servers that the request names, in
-- their order, and of all of them unless the deployment was cancelled; it reports a success exactly
-- where it was not cancelled and every result is "ok".
pub execute-Covers :
    (site : Site) (p : Params) (user : Option User) (i : ℕ) (s : State) (ts : List Target)
    → get_targets site.decrypt p.server_ids s ≡ ok ts
    → OnOk (Covers ts) (execute site p user i s).0
unfolding execute prepare
execute-Covers site p user i s ts e = rw e (
    make_plan-Covers site p user i (checked_image site p user s) (site.deployers p.deploy_type) ts
      s)
