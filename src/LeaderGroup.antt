-- ===== src/LeaderGroup.antt =====
-- pkg/controller/leadergroup_controller.go: the LeaderGroup controller, which keeps a Lease for
-- each group of type controller and reports it in the group's status.
pub mod Objects
pub mod Calls
pub mod Leases
pub mod Status
pub mod Reconcile
