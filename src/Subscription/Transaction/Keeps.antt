-- ===== src/Subscription/Transaction/Keeps.antt =====
-- What the transactions of the subscription store keep.
use vpn_platform.Prelude.{Option, none, some, String}
use vpn_platform.Subscription.Schema.{Database}
use vpn_platform.Subscription.Transaction.{random_uuid}
use vpn_platform.Store.Keeps
use vpn_platform.Store.Keeps.{throw-Keeps, return-Keeps}
pub use vpn_platform.Store.Keeps.{Keeps}

pub random_uuid-Keeps : {I : Database → Type 0} (o : Option String) → Keeps I (random_uuid o)
unfolding random_uuid
random_uuid-Keeps none = throw-Keeps _
random_uuid-Keeps (some a) = return-Keeps a

pub ruleset keeps_rules = (Keeps.keeps_rules, random_uuid-Keeps)
