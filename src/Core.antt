-- ===== src/Core.antt =====
-- backend/include/core: fixed-point scalars, the order record and its validation.
pub mod Float
pub mod Order
pub mod FixedPoint
pub mod Validator
pub mod Trace
pub mod Histogram
mod Examples
