-- ===== src/VhostUser.antt =====
-- vhost-user/: the back-end side of the vhost-user protocol.
pub mod Host
pub mod Vring
pub mod Bitmap
pub mod Handler
pub mod Backend
pub mod Daemon
