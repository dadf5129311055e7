-- ===== src/ClockServer.antt =====
-- components/ClockServer/src/clock_server.c: clocks that belong to the client that asked first.
pub mod Server
pub mod Ownership
