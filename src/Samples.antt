-- ===== src/Samples.antt =====
-- A small server and clock, and the theorems at them.
pub mod Server
mod Requests
pub mod Clusters
mod Injections
mod Measured
mod Metrics
mod Mixing
mod Pools
mod Ramps
mod Reports
mod Sessions
pub mod Scripts
mod Endings
