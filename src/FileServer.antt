-- ===== src/FileServer.antt =====
-- components/FileServer/src/server.c: files of an archive for clients.
pub mod Server
pub mod Ownership
pub mod Client
pub mod Reading
