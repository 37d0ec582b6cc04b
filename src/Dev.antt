-- ===== src/Dev.antt =====
-- The device layer: src/lws_dev.c over the operation tables of src/lws_dev_intl.h. A device handle
-- is not NULL in the model. What a backend keeps behind `platform_data` is a type parameter.
pub mod Types
pub mod Create
pub mod Backend
pub mod Control
pub mod Transfer
pub mod Timestamp
pub mod Calls
pub mod Transitions
pub mod Protocol
pub mod Clock
mod Examples
