-- ===== src/Exchange.antt =====
-- The programs together: what one sends is what the other receives.
pub mod Locate
pub mod Create
pub mod Command
pub mod Read
pub mod Write
pub mod Unknown
pub mod Register
mod Tests
