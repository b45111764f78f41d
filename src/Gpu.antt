-- ===== src/Gpu.antt =====
-- The GPU device. (device/virtio-gpu/src)
pub mod Layout
pub mod Protocol
pub mod Queue
pub mod Fences
pub mod Interface
pub mod Worker
pub mod Scanouts
pub mod Listing
pub mod Linked
pub mod Stranded
pub mod Reachable
pub mod Rutabaga
pub mod Config
pub mod Device
