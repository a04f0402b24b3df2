-- ===== src/Tests.antt =====
-- Tests: a concrete cluster, and the theorems at concrete inputs.
mod Retry
mod Cluster
mod Selection
mod Reconciling
mod Caches
mod Leases
mod Startup
mod Copies
mod Answers
mod Failover
mod Interleaving
mod Keyed
mod Staying
mod Counting
