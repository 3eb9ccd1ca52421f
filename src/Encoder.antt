-- ===== src/Encoder.antt =====
-- src/encoder.
pub mod Writer
