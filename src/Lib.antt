-- ===== src/Lib.antt =====
-- zen-lead: single-active routing to a leader pod.
--
-- zen-lead watches Services that are annotated `zen-lead.io/enabled: "true"`. For each it keeps a
-- second, selector-less Service, the leader service, and one EndpointSlice of it that holds the one
-- pod that may take traffic (pkg/director). Apart from that it keeps a Lease for each LeaderGroup of
-- type controller (pkg/controller), and has a client with which a pod asks whether it holds a Lease
-- (pkg/client). cmd/manager puts the two controllers, their metrics and their health checks into one
-- process. This library models all of these, translated function by function from the Go code. The
-- Director does not use Leases; the LeaderGroup controller and the client meet in the Lease only.
--
-- The parts, and where they stand:
--
--   Base                lists, options, texts, integers, association lists for Go maps, and a sort
--   Kube.Objects        the Kubernetes objects, with the fields that the code reads or writes
--   Kube.Errors         Go's errors, as far as apierrors.IsNotFound tells them apart
--   Metrics             pkg/metrics/metrics.go: the methods of Recorder as lists of samples, below it:
--     Vectors           the Prometheus vectors of Recorder, and NewRecorder
--   Director            pkg/director, below it:
--     Reconciler        service_director.go, ServiceDirectorReconciler: its constants, its state, and
--                       the calls that it makes on the API server, the clock and its libraries
--     Constructor       NewServiceDirectorReconciler
--     Calls             one call each of client, clock, event recorder and metrics recorder
--     Keeps             no code: what a run keeps true of the calls that have been made, and leads to
--     Sections          no code: calls and critical sections of goroutines, in any order
--     Succeeds          no code: what the answer of an action always is
--     Retry             retry_metrics.go: retryDoWithMetrics
--     Pods              isPodReady, getPodReadySince, and the predicate of the pod watch
--     Metadata          metadata.go: filterGitOpsLabels and filterGitOpsAnnotations
--     Naming            annotations, labels, getLeaderServiceName, getMinReadyDuration
--     Ports             resolveServicePorts and resolveNamedPort
--     Select            selectLeaderPod
--     LeaderPodCache    getCurrentLeaderPod and the leader pod cache
--     ServiceCache      the cache of opted-in services, mapPodToService, mapEndpointSliceToService
--     EndpointSlices    reconcileEndpointSlice and updateResourceTotals
--     LeaderService     reconcileLeaderService; its Publishing, and Published of EndpointSlices, say
--                       what stands in the slice of the leader service's name, field by field
--     Cleanup           cleanupLeaderResources
--     Reconcile         Reconcile
--     Setup             SetupWithManager of service_director.go
--     Health            health.go: the checks of ControllerHealthChecker
--     Strategy          strategy.go
--     Single            no code: which writes leave traffic with a single target
--   LeaderGroup         pkg/controller/leadergroup_controller.go, and the types that it uses of
--                       pkg/apis/leadership.kube-zen.io/v1alpha1, below it:
--     Objects, Calls    LeaderGroup and Lease; the calls on the API server and the clock
--     Leases            deriveLeaseName, buildLease, updateLeaseMetadata
--     Status            updateStatusFromLease, statusEqual
--     Reconcile         Reconcile, reconcileControllerType, cleanupLease
--   LeaderClient        pkg/client/client.go: NewClient, IsLeader, IsLeaderWithNamespace, ClearCache
--   Api                 pkg/apis/leadership.kube-zen.io/v1alpha1/leadergroup_types.go, below it:
--     Memory            the objects with their pointers, and a memory of typed cells
--     DeepCopy          DeepCopyInto, DeepCopy and DeepCopyObject of each type
--   Manager             cmd/manager/main.go: the flags, and main
--   Tests               a concrete cluster, and the theorems at concrete inputs
--
-- How the state is modelled. A handler is a function from a State to a result and a State (the monad
-- M of Director.Reconciler). The state holds the two caches of the reconciler, and the list of all
-- calls made so far, newest first. What the API server answers, what the clock reads and whether a
-- context has ended are functions of that list, the record Client: they are arbitrary, so between
-- two calls other writers may do anything, and a call may fail. A write stands in the list with
-- whether it was accepted. A statement about the cluster is a statement about that list.
--
-- What is not in the repository is a parameter: the client, and the record Libraries with zen-sdk's
-- retry.Do and retry.DefaultConfig, the validators and label selectors of apimachinery, and
-- time.ParseDuration, net.ParseIP and time formatting. Of retry.Do the theorems assume RetryLaws
-- (Director.Retry.Laws): it runs the function a number of times, at most MaxAttempts, one after
-- another, stops at the first success, and returns the last answer or an error after it. A test
-- module has a retry loop that has these laws. That Reconcile returns is shown for a server that answers
-- (Director.Reconcile.Returns) and a retry.Do that reports what a run answered (Director.Succeeds). The
-- LeaderGroup controller and the client have an arbitrary API server and clock of their own, GroupClient
-- and Surroundings. Of Prometheus's registry RegistryLaws are assumed (Metrics.Registering): a second
-- collector of a name is refused, a new valid one is taken. Of the copying functions of apimachinery it
-- is assumed that they copy deeply (Api.DeepCopy.Copies). main calls controller-runtime and zen-sdk
-- through the record Outside, which may also register collectors of its own, but removes none. Of the
-- API server some theorems assume more, as the comment above each says: that a slice which is read
-- for a key has its namespace and name (ReadsByKey in Director.EndpointSlices.Keyed), that a read
-- returns what was last written under the key (ReadsBack in Director.Reconcile.Stays), that a list of
-- services names none twice (ListsOnce in Director.Sections.Handlers), and that deletions are
-- accepted (Director.Cleanup.Deletes). Everything else is said for all answers of the parameters.
--
-- Bounds. Times are nanoseconds on the natural numbers, durations and int32 ports are integers
-- without a bound: the code only copies ports and compares durations. The durations that main makes of its
-- flags wrap around at 64 bits, as in the code. Durations that go into metrics
-- are differences that stop at 0, as the clock is monotonic. All loops of the code run over lists and
-- are structural recursion here, so there is no fuel; the number of attempts is the library's.
--
-- The renew times of a lease and of a status are both in nanoseconds. The API server stores the latter with
-- whole seconds; that stands in the hypothesis of the theorem on a status that is read back
-- (stored_status in LeaderGroup.Status.Observed), not in the client.
--
-- Not modelled: log lines, traces, message texts of events, context deadlines other than as arbitrary
-- answers. A handler runs on the state as if alone; Director.Sections breaks each into calls and
-- critical sections, and has every order of those of several goroutines. What is done under a lock is
-- one section. Cache entries are values: that mapPodToService still reads a shared entry after the
-- unlock is not modelled. sort.Slice is an insertion sort; the theorems use that it keeps the members and puts a least
-- one first. In mapPodToService the pool of slices is left out. Of SetupWithManager what
-- controller-runtime answers is a parameter; the schemas of pkg/apis register with it too and are left
-- out. Of pkg/metrics the help texts and the getters for tests are left out, and of cmd/manager
-- the parsing of the command line. The memory of Api.Memory never runs out and frees nothing; as Go's
-- types are safe, it holds a cell of each type at each address.
pub mod Base
pub mod Kube
pub mod Metrics
pub mod Director
pub mod LeaderGroup
pub mod LeaderClient
pub mod Api
pub mod Manager
pub mod Tests
