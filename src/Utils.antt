-- ===== src/Utils.antt =====
-- utils/utils.go
pub mod Version
pub mod Signal
pub mod Retry
pub mod Reason
mod Tests
