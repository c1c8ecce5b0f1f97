-- ===== src/Net.antt =====
-- kernel/network: the network stack (network_stack.c) with its two drivers (loopback.c, nic_stub.c).
pub mod State
pub mod ByteOrder
pub mod Packets
pub mod Devices
pub mod Sockets
pub mod Network
mod Examples
