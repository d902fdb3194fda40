-- ===== src/Billing.antt =====
-- services/billing: orders, their payments at the provider, and the events that announce them.
pub mod Types
pub mod Status
pub mod Schema
pub mod Transaction
pub mod Orders
pub mod Payments
pub mod Creation
pub mod Verified
pub mod Queues
pub mod Money
pub mod Backoff
pub mod Service
pub mod Worker
pub mod System
pub mod Ledger
pub mod Contract
pub mod Retention
mod Tests
