-- ===== src/VhostUser/Handler.antt =====
-- The vhost-user back-end's request handler. (vhost-user/src/handler.rs)
pub mod Types
pub mod Features
pub mod Memory
pub mod Rings
pub mod Dispatch
pub mod Keeps
pub mod Translation
pub mod RingLaws
pub mod Negotiation
pub mod Logging
