-- ===== src/Subscription/Delivery.antt =====
-- The order of delivery through every operation of the service.
pub mod Quiet
pub mod Sends
pub mod Stores
pub mod Operations
pub mod History
use vpn_platform.Subscription.Schema.{Database}
use vpn_platform.Subscription.Outbox.Ordering.{Ordered}

abbrev pub InOrder : Database → Type 0
InOrder db = Ordered db.subscriptions db.outbox
