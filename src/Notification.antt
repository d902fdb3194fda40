-- ===== src/Notification.antt =====
-- services/notification: the store of events and of delivery jobs.
pub mod Schema
pub mod Jobs
pub mod Leases
pub mod Replay
pub mod Claims
pub mod Requests
pub mod Again
mod Tests
