-- ===== src/Client.antt =====
-- clientx: the client toolkit.
pub mod Framer
pub mod Policy
