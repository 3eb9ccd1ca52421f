-- ===== src/Tests.antt =====
-- The theorems at concrete inputs, and runs of the definitions.
pub mod Streams
pub mod Codecs
pub mod Names
pub mod Values
pub mod Calls
pub mod Graphs
pub mod Plans
pub mod Checks
