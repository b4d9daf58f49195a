-- ===== src/Saas.antt =====
-- The crate `saas`.
pub mod Egress
mod Tests
