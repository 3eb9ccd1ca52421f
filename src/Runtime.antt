-- ===== src/Runtime.antt =====
-- src/runtime: the layer that both codec directions stand on.
pub mod Host
pub mod Bytes
pub mod Reader
pub mod Signed
pub mod Evaluator
pub mod Array
pub mod Callbacks
