-- ===== src/Picoserver.antt =====
-- remote-drivers/picotcp-socket-sync/server/picoserver_client.c: the sockets of each client.
pub mod Table
pub mod Finding
pub mod Ids
pub mod Deleting
pub mod Reporting
pub mod Putting
pub mod Clients
pub mod Sockets
pub mod Events
