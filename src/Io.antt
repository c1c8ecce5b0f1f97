-- ===== src/Io.antt =====
-- kernel/io: the I/O stack (io_stack.c, io_stack.h).
pub mod State
pub mod Calls
pub mod Chain
pub mod Registry
pub mod Listing
pub mod Requests
pub mod Ports
mod Examples
