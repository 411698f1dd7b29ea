-- ===== src/Approval.antt =====
-- backend/services/approval_service.py: approval rules, the state machine of approvals, their
-- execution and recovery, and the scheduler.
pub mod Env
pub mod Rules
pub mod Perms
pub mod Machine
pub mod Actions
pub mod Schedule
pub mod Gate
pub mod Execution
pub mod Scheduler
pub mod Queries
pub mod Listing
pub mod Evolution
pub mod Keys
pub mod Transition
pub mod Submitting
pub mod Judging
pub mod Refusing
pub mod Recovering
pub mod Claiming
pub mod Moves
pub mod Runs
pub mod Locks
