-- ===== src/EthernetAsync.antt =====
-- remote-drivers/picotcp-ethernet-async: the network stack and the Ethernet driver, in two components that share
-- two rings of buffers.
pub mod State
pub mod Client
pub mod Server
pub mod Queueing
pub mod Polling
pub mod Transmitting
pub mod Delivery
