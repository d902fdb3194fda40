-- ===== src/Admin.antt =====
-- services/admin: who may do what.
pub mod Roles
mod Tests
