-- ===== src/DeployRun/Records.antt =====
-- The life of a deployment record (backend/deploy_run.py). Each function is one transaction. The
-- INSERT and UPDATE that write a lock_key fail on the unique index when another row has that key;
-- the service turns that into a ValueError, here `err (value_error …)`.
use devops_cd.Prelude.{
  ℕ, ◌+◌, ◌-◌, String, Bool, true, false, not, ◌&&◌, ◌||◌, Option, none, some, List, [], ◌∷◌, ◌++◌,
  ltb, ◌==◌, str_eq, any, find_last, update, count, if◌then◌else◌,
}
use devops_cd.Text.{is_empty, take}
use devops_cd.Result.{Result, err, value_error}
use devops_cd.State.{ParamsJson, LogStatus, DeployLog, StageTime, State, Settings}
use devops_cd.DeployRun.Signals
use devops_cd.DeployRun.Status.{normalize_deploy_status, normalize_rollback_type}

abbrev pub busy_message : String
busy_message = "已有部署进行中"

-- status='running', status='pending'
abbrev pub is_running : LogStatus → Bool
is_running LogStatus.running = true
is_running _ = false

abbrev pub is_pending : LogStatus → Bool
is_pending LogStatus.pending = true
is_pending _ = false

abbrev pub is_interrupted : LogStatus → Bool
is_interrupted LogStatus.interrupted = true
is_interrupted _ = false

abbrev is_key : String → Option String → Bool
is_key p none = false
is_key p (some k) = str_eq k p

-- A row whose lock_key is the project's.
abbrev pub holds : String → DeployLog → Bool
holds p r = is_key p r.lock_key

-- The arguments of the two functions that insert a record.
pub record NewRecord : Type 0 where
  pub deploy_type : String
  pub project : String
  pub tag : String
  pub image : String
  pub triggered_by : String
  pub deploy_note : String
  pub target : String
  pub params_json : ParamsJson
  pub rollback_type : String
  pub approval_id : ℕ

abbrev pub new_row : ℕ → LogStatus → Option String → String → Option ℕ → NewRecord → DeployLog
new_row id status lock runner heartbeat a = record {
  id = id;
  project = a.project;
  tag = a.tag;
  image = a.image;
  deploy_type = a.deploy_type;
  target = a.target;
  status = status;
  output = "";
  triggered_by = a.triggered_by;
  deploy_note = a.deploy_note;
  duration_ms = 0;
  stage_times = [];
  lock_key = lock;
  params_json = a.params_json;
  rollback_type = normalize_rollback_type a.rollback_type;
  approval_id = a.approval_id;
  runner = runner;
  heartbeat_at = heartbeat;
}

-- INSERT: the row gets the next id.
abbrev pub insert_row : DeployLog → State → State
insert_row r s = record s { logs = s.logs ++ r ∷ []; next_log = s.next_log + 1 }

-- `instance` is INSTANCE_ID and `now` the epoch second of `_now_padded`.
unfoldable pub start_deploy_record : String → ℕ → NewRecord → State → Result ℕ × State
start_deploy_record instance_id now a s =
    if any (holds a.project) s.logs then (err (value_error busy_message), s) else (
      Result.ok s.next_log,
      insert_row (new_row s.next_log LogStatus.running (some a.project) instance_id (some now) a) s,
    )

unfoldable pub create_pending_deploy_record : NewRecord → State → ℕ × State
create_pending_deploy_record a s =
    (s.next_log, insert_row (new_row s.next_log LogStatus.pending none "" none a) s)

abbrev pub pending_of : ℕ → DeployLog → Bool
pending_of a r = r.approval_id == a && is_pending r.status

abbrev pub running_of : ℕ → DeployLog → Bool
running_of a r = r.approval_id == a && is_running r.status

abbrev pub claim_row : String → ℕ → String → DeployLog → DeployLog
claim_row instance_id now p r = record r {
  status = LogStatus.running;
  lock_key = some p;
  project = p;
  runner = instance_id;
  heartbeat_at = some now;
}

abbrev pub claim_found : String → ℕ → String → Option DeployLog → State → Result ℕ × State
claim_found instance_id now p none s = (Result.ok 0, s)
claim_found instance_id now p (some row) s =
    let hit = λ (r : DeployLog). r.id == row.id && is_pending r.status in
    if any (λ r. holds p r && not (r.id == row.id)) s.logs
    then (err (value_error busy_message), s)
    else if ltb 0 (count hit s.logs)
    then (Result.ok row.id, record s { logs = update hit (claim_row instance_id now p) s.logs })
    else (Result.ok 0, s)

unfoldable pub claim_pending_deploy_record : String → ℕ → String → ℕ → State → Result ℕ × State
claim_pending_deploy_record instance_id now p a s =
    if a == 0
    then (Result.ok 0, s)
    else claim_found instance_id now p (find_last (pending_of a) s.logs) s

-- SET status=…, lock_key=NULL
abbrev pub release_row : LogStatus → DeployLog → DeployLog
release_row status r = record r { status = status; lock_key = none }

unfoldable pub reset_pending_deploy_record : ℕ → State → State
reset_pending_deploy_record a s =
    if a == 0
    then s
    else record s { logs = update (running_of a) (release_row LogStatus.pending) s.logs }

abbrev is_closing : LogStatus → Bool
is_closing LogStatus.rejected = true
is_closing LogStatus.cancelled = true
is_closing _ = false

unfoldable pub mark_approval_log_terminal : ℕ → LogStatus → State → State
mark_approval_log_terminal a status s =
    if a == 0 || not (is_closing status)
    then s
    else record s { logs = update (pending_of a) (release_row status) s.logs }

-- The keyword arguments of `finish_deploy_record`.
pub record Finish : Type 0 where
  pub status : String
  pub target : String
  pub output : String
  pub duration_ms : ℕ
  pub stage_times : List StageTime
  pub note : Option String
  pub project : String

abbrev pub is_terminated : LogStatus → Bool
is_terminated LogStatus.terminated = true
is_terminated _ = false

abbrev pub finish_note : Option String → String → String
finish_note none old = old
finish_note (some n) old = take 512 n

abbrev pub finish_row : Settings → Finish → DeployLog → DeployLog
finish_row c f r = record r {
  status = normalize_deploy_status f.status;
  target = f.target;
  output = take c.log_truncate_chars f.output;
  duration_ms = f.duration_ms;
  stage_times = f.stage_times;
  deploy_note = finish_note f.note r.deploy_note;
  lock_key = none;
}

-- The WHERE clauses: by id (only while running, unless the new status is terminated), else every
-- running row of the project, else every running row.
abbrev pub finishes : LogStatus → ℕ → String → DeployLog → Bool
finishes status deploy_id p r =
    if deploy_id == 0
    then is_running r.status && (is_empty p || str_eq r.project p)
    else r.id == deploy_id && (is_terminated status || is_running r.status)

unfoldable pub finish_deploy_record : Settings → ℕ → Finish → State → State
finish_deploy_record c deploy_id f s =
    let hit = finishes (normalize_deploy_status f.status) deploy_id f.project in
    record s { logs = update hit (finish_row c f) s.logs }

unfoldable pub find_running_deploy : String → State → Option DeployLog
find_running_deploy p s = find_last (λ r. str_eq r.project p && is_running r.status) s.logs

-- The `success` of the reply: whether a running row was there.
unfoldable pub mark_deploy_cancelled : ℕ → State → Bool × State
mark_deploy_cancelled deploy_id s =
    let hit = λ (r : DeployLog). r.id == deploy_id && is_running r.status in
    (
      ltb 0 (count hit s.logs),
      record s {
        events = Signals.cancel deploy_id s.events;
        logs = update hit (release_row LogStatus.terminated) s.logs;
      },
    )

abbrev is_late : Option ℕ → ℕ → Bool
is_late none before = true
is_late (some t) before = ltb t before

-- A running row without a runner or whose heartbeat is older than `stale_seconds`.
abbrev pub is_stale : ℕ → DeployLog → Bool
is_stale before r = is_running r.status && (is_empty r.runner || is_late r.heartbeat_at before)

-- The number of recovered rows, and the state after the recovery.
unfoldable pub recover_stale_running : ℕ → ℕ → State → ℕ × State
recover_stale_running now stale_seconds s =
    let stale = is_stale (now - stale_seconds) in
    (
      count stale s.logs,
      record s { logs = update stale (release_row LogStatus.interrupted) s.logs },
    )

abbrev member : ℕ → List ℕ → Bool
member x [] = false
member x (y ∷ ys) = x == y || member x ys

-- One round of `_heartbeat_loop`: renew the heartbeat of this process's running records.
unfoldable pub heartbeat : String → ℕ → State → State
unfolding Signals.active_ids
heartbeat instance_id now s =
    let ids = Signals.active_ids s.events in
    record s {
      logs =
          update (λ r. member r.id ids && (str_eq r.runner instance_id && is_running r.status))
            (λ r. record r { heartbeat_at = some now }) s.logs;
    }

-- The checker of `cancel_checker_for`: the signal of this process, or the row's status.
abbrev ended : Option DeployLog → Bool
ended none = false
ended (some r) = not (is_running r.status)

unfoldable pub check_cancel : ℕ → State → Bool
check_cancel deploy_id s =
    Signals.is_cancelled deploy_id s.events || ended (find_last (λ r. r.id == deploy_id) s.logs)
