-- ===== src/Tests.antt =====
-- Runs of the model at concrete inputs, over an encoding that stands in for bitcode.
pub mod Codec
pub mod Data
pub mod Wal
pub mod Buffer
pub mod Http
pub mod Node
pub mod Flush
pub mod Files
pub mod Agent
pub mod Server
