-- ===== src/Utils.antt =====
-- `common/utils.cpp` and `common/utils.h`: the helpers that the commands share.
pub mod Argv
pub mod Rank
pub mod Search
pub mod Report
pub mod Config
pub mod Init
pub mod Log
pub mod Nodes
