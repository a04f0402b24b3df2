-- ===== src/Kube.antt =====
-- The Kubernetes side: the objects that the controller reads and writes, and its errors.
pub mod Objects
pub mod Errors
