-- ===== src/Trans.antt =====
-- src/lws_trans.c and include/lws_trans.h: the transports behind one interface. Types holds the
-- data, Udp and Mqtt the two implementations, Api the calls that go through the operation table,
-- Address the conversion of addresses to and from text. The other children hold proofs.
pub mod Types
pub mod Udp
pub mod Mqtt
pub mod Callbacks
pub mod Api
pub mod Calls
pub mod Assembly
pub mod Ledger
pub mod Ownership
pub mod Buffer
pub mod Reassembly
pub mod Address
pub mod Connected
mod Examples
