-- ===== src/Alert.antt =====
-- backend/services/alert_service.py: the checks of the alert rules, which a background thread runs
-- at an interval.
pub mod Rule
pub mod Tracking
pub mod Message
pub mod Check
pub mod Memory
pub mod Cooldown
pub mod Rounds
pub mod Passes
pub mod Firing
pub mod Sustained
pub mod Reported
pub mod Again
pub mod Lasting
pub mod Limits
