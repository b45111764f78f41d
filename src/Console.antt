-- ===== src/Console.antt =====
-- The virtio-console device. (device/virtio-console/src)
pub mod PortMap
pub mod Message
pub mod Port
pub mod Control
pub mod Ports
pub mod Device
