-- ===== src/Deploy.antt =====
-- backend/services/deploy_service.py and backend/services/deploy_executor.py: a deployment to one
-- or several servers, and its execution from stored parameters.
pub mod Tag
pub mod Options
pub mod Targets
pub mod Report
pub mod Plan
pub mod Loop
pub mod Service
pub mod Executor
pub mod Closing
pub mod Coverage
pub mod Marker
pub mod TagShape
pub mod K8s
pub mod K8sClosing
pub mod Retry
pub mod RetryBound
pub mod Logs
pub mod LogPages
