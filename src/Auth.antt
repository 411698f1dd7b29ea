-- ===== src/Auth.antt =====
-- backend/auth.py: permissions and the rebuilding of an execution identity. The identity itself
-- comes from the Glue service through `glue_identity.get_identity`, whose answer is an argument.
pub mod Perms
pub mod Context
pub mod Glue
pub mod Sessions
pub mod Access
pub mod Freshness
pub mod Confirmed
