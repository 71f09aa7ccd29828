-- ===== src/Controller.antt =====
-- controllers/loadtest_controller.go: the reconciler of load tests. Its parts are in the modules
-- below: the calls of the Kubernetes API, the phases of `Reconcile`, and what they do.
pub mod Cluster
pub mod Effects
pub mod Conduct
pub mod Terminated
pub mod Filled
pub mod Gang
pub mod Converges
pub mod Pools
pub mod Prepare
pub mod Schedule
pub mod Reconcile
