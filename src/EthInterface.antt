-- ===== src/EthInterface.antt =====
-- components/PicoServer/src/eth_interface.c: the network stack as a client of the Ethernet driver.
pub mod Device
pub mod Receiving
