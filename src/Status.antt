-- ===== src/Status.antt =====
-- status.go: the controller that reports the operator's status.
pub mod Operator
pub mod Queue
pub mod Run
