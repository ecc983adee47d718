-- ===== src/Types.antt =====
-- modules/types: time, heights, identifiers and the `Any` envelope.
pub mod Errors
pub mod Time
pub mod Height
pub mod Any
pub mod Host
