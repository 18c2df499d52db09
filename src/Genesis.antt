-- ===== src/Genesis.antt =====
-- `common/genesis.cpp`: the search for a genesis block, and the commands of that file.
pub mod Mine
pub mod Threads
pub mod Block
pub mod Rpc
