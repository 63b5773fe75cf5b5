-- ===== src/Examples.antt =====
-- Concrete devices, configs and runs: the samples, and the theorems applied to them.
pub mod Samples
mod Blocks
mod Codec
mod Device
mod Logs
mod Documents
mod Drive
mod Checks
mod Random
mod Passes
