-- ===== src/Event.antt =====
-- event_manager/ and event_token_derive/: tokens packed into the 64 bits that epoll carries.
pub mod Token
pub mod Derive
pub mod Manager
