-- ===== src/DeployRun.antt =====
-- backend/deploy_run.py: the cancel signals, the records of running deployments and the lock of a
-- project, which is the unique index on cd_deploy_logs.lock_key.
pub mod Status
pub mod Signals
pub mod Records
pub mod Locks
pub mod Keeps
pub mod Frame
pub mod Busy
