-- ===== src/Lib.antt =====
-- The continuous deployment service Devops_CD: approvals and deployments over a shared database.
--
-- The service (backend/, Python) submits deployments of images to servers. A project's approval
-- rules decide whether a deployment waits for an approval; an approval is approved or rejected by
-- somebody else than its requester, executed once by its requester or by the scheduler, and
-- recovered after a crash. Every deployment has a record, whose lock makes sure that a project has
-- one running deployment at a time, over all processes on the database.
--
-- Parts and files:
--   Text, Text/Csv, Text/Order, Text/Digits, Text/Dict: what the services use of Python's str.
--   Result: backend/exceptions.py, as values.
--   State: the rows of cd_approvals, cd_deploy_logs, cd_approval_rules and cd_servers
--     (database/init_mysql.sql) and the cancel signals of the process.
--   DeployRun: backend/deploy_run.py. Status has the aliases of status texts, Signals the class
--     DeployRunManager, Records the life of a deployment record; Locks, Keeps, Frame and Busy
--     have the lock invariant, what the operations leave alone, and when a start is refused.
--   Auth: the permissions and execution identities of backend/auth.py; Sessions and
--     Access have its login sessions; Glue, Freshness and Confirmed have the identity client
--     backend/services/glue_identity.py with its caches.
--   Approval: backend/services/approval_service.py. Rules, Perms, Machine, Schedule, Actions, Gate,
--     Execution and Scheduler have its functions under their names; Evolution, Keys, Transition,
--     Moves, Runs and Locks have the state machine and what every operation does to it.
--     Judging, Refusing, Claiming, Submitting and Recovering say what single operations do.
--   Deploy: backend/services/deploy_service.py (Options, Targets, Report; Plan, Loop and Service have
--     the parts of `execute`), backend/services/deploy_executor.py (Executor) and validate_tag of
--     backend/deployers/base.py (Tag). Closing, Coverage, Marker and TagShape have the proofs.
--     K8s and K8sClosing have backend/services/k8s_deploy_service.py and the K8S route of the executor;
--     Retry and RetryBound have retry_idempotent of backend/deployers/base.py.
--   Rollback: backend/services/rollback_service.py; Outcome and Source have its proofs.
--   Lease: backend/dlock.py, the lock of the scheduler and other loops; Exclusion has its proof.
--   Alert: backend/services/alert_service.py. Tracking has its memory, Message the text of an alert,
--     Check and Rounds its functions; Memory, Cooldown, Passes, Firing, Sustained, Reported,
--     Again, Lasting and Limits have the proofs.
--   Paging: LIMIT, OFFSET and the page counts of backend/responses.py and of the lists; Cover shows
--     that the pages make up the rows. Approval/Queries and Listing have list_approvals and
--     count_todo, Deploy/Logs and LogPages have list_logs.
--   Registry: backend/services/registry_service.py. Sync and Rounds have the synchronisations,
--     Queries and Scan the rest; Mirror, Outcome, Unique, Sweep, Mapping and Report have the proofs.
--   Routes: the deploying routes of backend/routers/deploy.py and backend/routers/k8s_deploy.py
--     (Submit, Deploy), deploy_cancel (Cancel) and the routes of backend/routers/approvals.py that
--     execute an approval (Execute); Guards, Refining, Stopping and Settling have the proofs.
--   System: the steps that interleave, and what holds after any sequence of them (Safety); Traces,
--     Rounds and Cluster show that the longer operations are such sequences.
--   Examples: small runs, and the theorems at concrete inputs.
--
-- A table is the list of its rows in the order of their ids. Each `with db.conn()` block is one
-- transaction: what was written in one that was left stays written after a raise, and one that
-- raises itself is rolled back; a failing database is not modelled. A step of System is one
-- transaction or one request of few transactions; what runs between them is left to any other step.
-- The clock, the settings, the answers of the identity service (Glue, over HTTP) and of the image
-- registry are arguments. A params_json column is what json.loads makes of its text. str.lower and
-- str.isdigit are modelled on ASCII. heartbeat_at, a zero-padded epoch second, is a number. The
-- loops recur on a list or a text; only the decimal text of a number has fuel, one more than the
-- number, which is more than its digits. A deployer's run is an argument that may change the state,
-- because other requests go on while it runs; the theorems on rounds and routes ask that such
-- changes are steps. Durations are arguments.
--
-- Not modelled: the other HTTP routes, the frontend, the SSH, Compose and Kubernetes deployers, the
-- clients of the CI service and of the image registry, monitoring and the collection of metrics,
-- webhooks and the sending of notifications, OIDC login, encryption of secrets and the schema
-- set-up: they talk to other programs, or only hand values on. A message to a bot is recorded as
-- handed over.
pub mod Paging
pub mod Prelude
pub mod Text
pub mod Registry
pub mod Result
pub mod State
pub mod Auth
pub mod Deploy
pub mod Lease
pub mod Rollback
pub mod Routes
pub mod DeployRun
pub mod Alert
pub mod Approval
pub mod System
pub mod Examples
