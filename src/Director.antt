-- ===== src/Director.antt =====
-- pkg/director: the ServiceDirector controller.
pub mod Reconciler
pub mod Constructor
pub mod Calls
pub mod Keeps
pub mod Sections
pub mod Succeeds
pub mod Retry
pub mod Pods
pub mod Metadata
pub mod Naming
pub mod Health
pub mod Strategy
pub mod Ports
pub mod Select
pub mod LeaderPodCache
pub mod ServiceCache
pub mod EndpointSlices
pub mod LeaderService
pub mod Cleanup
pub mod Reconcile
pub mod Single
pub mod Setup
