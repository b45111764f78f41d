-- ===== src/Gpu/Protocol.antt =====
-- The messages of the GPU device. (device/virtio-gpu/src/protocol.rs)
pub mod Structs
pub mod Virgl
pub mod Blob
pub mod Answers
pub mod Commands
pub mod Responses
