-- ===== src/Status.antt =====
-- status/: the health of a load test and its pods, and which of its pods are missing.
pub mod Container
pub mod PodVerdict
pub mod LoadTest
pub mod Owned
pub mod Health
pub mod Consistent
pub mod Running
pub mod Missing
