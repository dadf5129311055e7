-- ===== src/Ethdriver.antt =====
-- components/Ethdriver/src/ethdriver.c: one network card shared by several clients.
pub mod State
pub mod Filter
pub mod Rx
pub mod Tx
pub mod Queue
pub mod Buffers
pub mod Lookup
pub mod Receiving
pub mod Collecting
pub mod Init
pub mod Initial
pub mod Fifo
pub mod Sending
pub mod Steps
mod Ready
pub mod Waking
pub mod Reach
