-- ===== src/Tests.antt =====
-- Runs and instances of the theorems, on one small cluster.
mod World
mod Authorizing
mod Checking
mod Controlling
mod Reconciling
mod Starting
mod Booting
mod Reporting
mod Clustering
mod Ordering
mod Decoding
