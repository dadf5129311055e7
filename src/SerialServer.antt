-- ===== src/SerialServer.antt =====
-- components/SerialServer/src/serial.c: one serial line shared by several clients.
pub mod State
pub mod Output
pub mod Putchar
pub mod Input
pub mod Transcript
pub mod Flushing
pub mod Writing
pub mod Lines
mod Storing
mod Shrinking
pub mod Overflow
pub mod Timer
pub mod Typing
pub mod Giving
pub mod Delivering
