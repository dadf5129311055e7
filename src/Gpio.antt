-- ===== src/Gpio.antt =====
-- components/GPIOMUXServer/src/gpio.c: pins that belong to the client that asked first.
pub mod Server
pub mod Ownership
