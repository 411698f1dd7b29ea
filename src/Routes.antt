-- ===== src/Routes.antt =====
-- The routes that start and cancel deployments: backend/routers/deploy.py and the two deploying
-- routes of backend/routers/k8s_deploy.py, and those
-- of backend/routers/approvals.py that execute an approval. What a request has to pass comes before the service is
-- called.
pub mod Submit
pub mod Deploy
pub mod Cancel
pub mod Execute
pub mod Guards
pub mod Refining
pub mod Stopping
pub mod Settling
