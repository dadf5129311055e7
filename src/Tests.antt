-- ===== src/Tests.antt =====
-- Runs of the servers on small inputs, and the theorems at such inputs.
mod Network
mod Serial
mod Servers
mod Direct
mod Rings
mod Polling
mod Archive
mod Frames
mod Messages
mod Sockets
mod Files
mod Registers
