-- ===== src/SocketServer.antt =====
-- remote-drivers/picotcp-socket-sync/server/server.c: the network stack's sockets for clients.
pub mod State
pub mod Control
pub mod Transfer
pub mod Pending
pub mod Async
pub mod Incoming
pub mod Lifetime
pub mod Closing
pub mod Linking
pub mod Serving
pub mod Cleanup
pub mod Accepting
pub mod Draining
pub mod Checking
