-- ===== src/Kernel/Route.antt =====
-- The routing engine, kernel/src/route: the balancer, the conditions and the table.
pub mod Balance
pub mod Condition
pub mod Table
pub mod Sniff
