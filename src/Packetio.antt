-- ===== src/Packetio.antt =====
-- Package packetio: the packet buffer.
pub mod Ring
pub mod Buffer
