-- ===== src/Key.antt =====
-- `common/keytool.cpp`
pub mod Message
pub mod Check
pub mod Commands
pub mod Address
pub mod Find
