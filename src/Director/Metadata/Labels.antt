-- ===== src/Director/Metadata/Labels.antt =====
-- The labels of generated objects.
use zen_lead.Base.{◌≡◌, not, String, none, some, arith, str_eq, if◌then◌else◌}
use zen_lead.Base.Dict.{Dict, lookup, lookup-insert, lookup-filter}
use zen_lead.Kube.Objects.{Service}
use zen_lead.Director.Metadata.{
  contains, git_ops_tracking_labels, git_ops_tracking_annotations, filter_git_ops_labels,
  filter_git_ops_annotations,
}
use zen_lead.Director.Naming.{
  managed_by_label, source_service_label, endpoint_slice_managed_by_label, service_name_label,
  managed_by_value,
}
use zen_lead.Director.LeaderService.{leader_labels}
use zen_lead.Director.EndpointSlices.{slice_labels}

-- Filtering drops exactly the labels of GitOps tools.
pub lookup-filter_git_ops_labels :
    (k : String) (m : Dict String)
    → lookup k (filter_git_ops_labels m)
      ≡ (if contains git_ops_tracking_labels k then none else lookup k m)
unfolding filter_git_ops_labels
lookup-filter_git_ops_labels k m =
    ground (arith, lookup-filter (λ j. not (contains git_ops_tracking_labels j)) k m)

-- and of annotations
pub lookup-filter_git_ops_annotations :
    (k : String) (m : Dict String)
    → lookup k (filter_git_ops_annotations m)
      ≡ (if contains git_ops_tracking_annotations k then none else lookup k m)
unfolding filter_git_ops_annotations
lookup-filter_git_ops_annotations k m =
    ground (arith, lookup-filter (λ j. not (contains git_ops_tracking_annotations j)) k m)

-- Whatever labels the source service has, the leader service is marked with its source and its
-- manager; every other label is the source's, less those of GitOps tools.
pub lookup-leader_labels :
    (svc : Service) (k : String)
    → lookup k (leader_labels svc) ≡ (
        if str_eq source_service_label k
        then some svc.name
        else if str_eq managed_by_label k
        then some managed_by_value
        else if contains git_ops_tracking_labels k
        then none
        else lookup k svc.labels)
unfolding leader_labels
lookup-leader_labels svc k = simp (lookup-insert, lookup-filter_git_ops_labels)

-- The same of a new slice, which is also marked with the leader service and with the manager of
-- the slice.
pub lookup-slice_labels :
    (svc : Service) (leader_name k : String)
    → lookup k (slice_labels svc leader_name) ≡ (
        if str_eq endpoint_slice_managed_by_label k
        then some managed_by_value
        else if str_eq source_service_label k
        then some svc.name
        else if str_eq managed_by_label k
        then some managed_by_value
        else if str_eq service_name_label k
        then some leader_name
        else if contains git_ops_tracking_labels k
        then none
        else lookup k svc.labels)
unfolding slice_labels
lookup-slice_labels svc leader_name k = simp (lookup-insert, lookup-filter_git_ops_labels)
