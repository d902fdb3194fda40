-- ===== src/Subscription.antt =====
-- services/subscription: the entitlement of a user, from paid and refunded periods.
pub mod Types
pub mod Schema
pub mod Transaction
pub mod Entitlement
pub mod Inbox
pub mod Outbox
pub mod Plan
pub mod Payment
pub mod Reads
pub mod Refund
pub mod Due
pub mod Admin
pub mod Validation
pub mod Backoff
pub mod Service
pub mod Worker
pub mod System
pub mod Delivery
mod Tests
