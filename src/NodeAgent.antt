-- ===== src/NodeAgent.antt =====
-- services/node-agent: the credentials of one node, brought to their desired state.
pub mod Types
pub mod Checks
pub mod Journal
pub mod Service
pub mod Changes
pub mod Invariant
pub mod Revisions
pub mod Effect
mod Tests
