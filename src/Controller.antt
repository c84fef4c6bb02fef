-- ===== src/Controller.antt =====
-- pkg/controller/controller.go: a module for each group of its functions.
pub mod Filters
pub mod Limits
pub mod Approve
pub mod KubeletCa
pub mod Reconcile
pub mod Cluster
