-- ===== src/Kernel.antt =====
-- The crate `kernel`.
pub mod Error
pub mod Cursor
pub mod Net
pub mod Translation
pub mod Route
pub mod Stats
pub mod Uuid
pub mod Service
pub mod Dispatch
mod Tests
