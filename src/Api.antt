-- ===== src/Api.antt =====
-- pkg/apis/leadership.kube-zen.io/v1alpha1/leadergroup_types.go: the objects with their pointers,
-- and the functions that copy them.
pub mod Memory
pub mod DeepCopy
