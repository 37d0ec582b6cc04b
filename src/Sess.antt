-- ===== src/Sess.antt =====
-- The media session (src/lws_sess.c).
pub mod Types
pub mod Sdp
pub mod Attribute
pub mod Control
pub mod Remote
pub mod Media
pub mod Create
pub mod Calls
pub mod Protocol
pub mod Modes
pub mod Fixed
pub mod Ownership
pub mod Counters
pub mod Offer
pub mod Handshake
mod Examples
