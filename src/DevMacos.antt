-- ===== src/DevMacos.antt =====
-- src/lws_dev_macos.c: the backend for macOS. What AudioToolbox, the allocator and the condition
-- variable answer are arguments.
pub mod Ring
pub mod Types
pub mod Ops
pub mod Open
pub mod Audio
pub mod Steps
pub mod Fifo
pub mod Refine
pub mod Queue
pub mod Opened
pub mod Waiting
pub mod Lifetime
pub mod Balance
pub mod Backend
pub mod Holds
pub mod Taken
mod Examples
