-- ===== src/TimeServer.antt =====
-- components/TimeServer/src/time_server.c: timeouts of many clients over one timer.
pub mod Server
pub mod Tokens
pub mod Completion
pub mod Calls
