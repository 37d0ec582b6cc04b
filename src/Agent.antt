-- ===== src/Agent.antt =====
-- The SIP agent: registration, dialogs and calls (src/lws_agent.c).
pub mod Types
pub mod Dialogs
pub mod Media
pub mod Calls
pub mod Incoming
pub mod Register
pub mod Sequence
pub mod Listed
pub mod Opened
pub mod Transport
pub mod Lifecycle
pub mod Belongings
pub mod Teardown
pub mod Delivery
pub mod Answer
pub mod Silence
pub mod Registration
pub mod States
pub mod Moves
pub mod Counted
pub mod References
pub mod Balance
pub mod Held
pub mod Arrivals
pub mod Distinct
pub mod Ledger
pub mod Released
mod Examples
mod Runs
