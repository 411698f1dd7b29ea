-- ===== src/System.antt =====
-- The service as a whole: what may happen between two moments. A step is one transaction of the
-- deployment and approval services, so a sequence of steps is an interleaving of requests, of the
-- threads that run deployments, of the scheduler and of other instances on the same database.
pub mod Safety
pub mod Traces
pub mod Rounds
pub mod Cluster
use devops_cd.Prelude.{ℕ, String, false, List, [], ◌∷◌, ◌++◌, ◌≡◌}
use devops_cd.Result.{Error}
use devops_cd.State.{Rule, Server, Notice, State, User, Settings, RunStatus}
use devops_cd.DeployRun.Signals
use devops_cd.DeployRun.Status.{normalize_deploy_status}
use devops_cd.DeployRun.Records
use devops_cd.DeployRun.Records.{is_running, NewRecord, Finish}
use devops_cd.Approval.Env.{Env}
use devops_cd.Approval.Actions
use devops_cd.Approval.Gate
use devops_cd.Approval.Gate.{Request}
use devops_cd.Approval.Execution
use devops_cd.Approval.Execution.{RunResult}
use devops_cd.Approval.Scheduler
use devops_cd.Routes.Execute

-- The clock, the settings and the identities may differ from step to step.
pub data Step (s : State) : State → Type 0 where
  -- requests on approvals
  submit : (c : Env) (q : Request) → Step s (Gate.gate_deploy c q s).1
  approve : (c : Env) (i : ℕ) (u : User) → Step s (Actions.approve c i u s).1
  reject : (c : Env) (i : ℕ) (u : User) (note : String) → Step s (Actions.reject c i u note s).1
  cancel : (c : Env) (i : ℕ) (u : User) → Step s (Actions.cancel c i u s).1
  -- the execution of an approval: the claim, and what follows the deployment or its failure
  claim : (c : Env) (i : ℕ) (u : User) → Step s (Execution.claim_for_execution c i u s).1
  settle : (c : Env) (i : ℕ) (r : RunResult) (st : RunStatus) → Step s (Execution.settle c i r st s)
  handle : (c : Env) (i : ℕ) (e : Error) → Step s (Scheduler.handle c i e s)
  fail_execution : (c : Env) (i : ℕ) → Step s (Execute.fail_execution c i s)
  recover : (c : Env) → Step s (Execution.recover_on_startup c s)
  -- a deployment: its record starts anew or from the pending one, and ends with no running status
  start :
      (instance_id : String) (now : ℕ) (a : NewRecord)
      → Step s (Records.start_deploy_record instance_id now a s).1
  claim_record :
      (instance_id : String) (now : ℕ) (p : String) (a : ℕ)
      → Step s (Records.claim_pending_deploy_record instance_id now p a s).1
  finish :
      (c : Settings) (deploy_id : ℕ) (f : Finish)
      → is_running (normalize_deploy_status f.status) ≡ false
      → Step s (Records.finish_deploy_record c deploy_id f s)
  cancel_deploy : (deploy_id : ℕ) → Step s (Records.mark_deploy_cancelled deploy_id s).1
  heartbeat : (instance_id : String) (now : ℕ) → Step s (Records.heartbeat instance_id now s)
  -- the cancel signals of the process
  register : (k : ℕ) → Step s (record s { events = Signals.register k s.events })
  unregister : (k : ℕ) → Step s (record s { events = Signals.unregister k s.events })
  cancel_all : Step s (record s { events = Signals.cancel_all s.events })
  -- a message is sent
  notified : (n : Notice) → Step s (record s { notices = s.notices ++ n ∷ [] })
  -- an administrator edits the rules and the servers
  configure :
      (rules : List Rule) (servers : List Server)
      → Step s (record s { rules = rules; servers = servers })

pub data Reach (s : State) : State → Type 0 where
  here : Reach s s
  next : {t u : State} → Reach s t → Step t u → Reach s u
