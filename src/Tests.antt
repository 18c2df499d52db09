-- ===== src/Tests.antt =====
-- Runs of the modelled program on concrete inputs, by component.
mod Utils
mod Key
mod Reward
mod Fees
mod Alert
mod Genesis
mod Command
mod Mempool
