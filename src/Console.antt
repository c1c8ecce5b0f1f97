-- ===== src/Console.antt =====
-- boot/kernel.c: the serial console that runs after boot.
pub mod Port
pub mod Calls
pub mod Shell
pub mod Decimal
pub mod Session
mod Examples
