-- ===== src/Director/EndpointSlices.antt =====
-- service_director.go: reconcileEndpointSlice and updateResourceTotals.
pub mod Routes
pub mod Writes
pub mod Written
pub mod Keyed
pub mod Published
pub mod Watched
use zen_lead.Base.{
  ℕ, String, Bool, true, false, not, ◌&&◌, Option, none, some, List, [], ◌∷◌, str_eq, is_some,
  length, if◌then◌else◌,
}
use zen_lead.Base.Dict.{Dict, insert}
use zen_lead.Kube.Objects.{
  Key, Pod, Service, ServicePort, TargetPort, number, named, Endpoint, EndpointPort, EndpointSlice,
  ObjectReference, OwnerReference,
}
use zen_lead.Kube.Errors.{Error, Result, ok, err, other, wrap, is_not_found}
use zen_lead.Metrics.{
  record_endpoint_write_error, record_leader_services_total, record_endpoint_slices_total,
  record_timeout,
}
use zen_lead.Director.Reconciler.{Reconciler, M, ◌>>=◌, ◌>>◌, pure}
use zen_lead.Director.Calls.{
  record_metric, deadline_exceeded, fetch_service, fetch_slice, fetch_services, fetch_slices,
  send_create_slice, send_patch_slice,
}
use zen_lead.Director.Retry.{retry_do_with_metrics}
use zen_lead.Director.Pods.{ready_condition}
use zen_lead.Director.Metadata.{filter_git_ops_labels}
use zen_lead.Director.Naming.{
  managed_by_label, source_service_label, endpoint_slice_managed_by_label, service_name_label,
  managed_by_value,
}

abbrev pub unless_empty : String → Option String
unless_empty s = if not (str_eq s "") then some s else none

-- the labels of a new slice
unfoldable pub slice_labels : Service → String → Dict String
slice_labels svc leader_name = insert endpoint_slice_managed_by_label managed_by_value (
    insert source_service_label svc.name (
      insert managed_by_label managed_by_value
        (insert service_name_label leader_name (filter_git_ops_labels svc.labels))))

-- one service port as a port of the slice; an unresolved one is an error
unfoldable pub endpoint_port : ServicePort → TargetPort → Result EndpointPort
endpoint_port p (number n) =
    ok (record { name = unless_empty p.name; port = some n; protocol = some p.protocol })
endpoint_port p (named name) = err (other "port has unresolved named targetPort")

abbrev pub cons_port : Result EndpointPort → Result (List EndpointPort) → Result (List EndpointPort)
cons_port (err e) rest = err e
cons_port (ok q) (err e) = err e
cons_port (ok q) (ok qs) = ok (q ∷ qs)

-- the loop over the service ports
unfoldable pub endpoint_ports : List ServicePort → Result (List EndpointPort)
unfolding endpoint_port
endpoint_ports [] = ok []
endpoint_ports (p ∷ ps) = cons_port (endpoint_port p p.target_port) (endpoint_ports ps)

unfoldable pub pod_reference : Pod → ObjectReference
pod_reference p = record { kind = "Pod"; namespace = p.namespace; name = p.name; uid = p.uid }

-- the endpoint of a pod, and of no pod
unfoldable pub build_endpoint : Option Pod → Endpoint
unfolding pod_reference
build_endpoint none = record {
  addresses = [];
  ready = some false;
  node_name = none;
  target_ref = none;
}
build_endpoint (some p) =
    if not (str_eq p.pod_ip "")
    then record {
      addresses = p.pod_ip ∷ [];
      ready = some (ready_condition p.conditions);
      node_name = unless_empty p.node_name;
      target_ref = some (pod_reference p);
    }
    else record {
      addresses = [];
      ready = some (ready_condition p.conditions);
      node_name = none;
      target_ref = none;
    }

abbrev pub no_ports : List ServicePort → Bool
no_ports [] = true
no_ports (p ∷ ps) = false

module _ ⦃r : Reconciler⦄ where
  unfoldable pub address_type : Option Pod → String
  address_type none = "IPv4"
  address_type (some p) =
      if not (str_eq p.pod_ip "") && r.libraries.parses_as_ipv6 p.pod_ip then "IPv6" else "IPv4"

  record_total : {A : Type 0} → String → (ℕ → M (Unit {0})) → Result (List A) → M (Unit {0})
  record_total ns note (ok items) = note (length items)
  record_total ns note (err e) = do
    late ← deadline_exceeded
    if late then record_metric (record_timeout ns "metrics_collection") else pure tt

  -- updateResourceTotals
  unfoldable pub update_resource_totals : String → M (Unit {0})
  unfolding record_total
  update_resource_totals ns = if not r.metrics then pure tt else (do
    services ←
        retry_do_with_metrics r.libraries.default_retry
          (fetch_services ns ((managed_by_label, managed_by_value) ∷ [])) ns ""
          "list_leader_services_metrics"
    record_total ns (λ n. record_metric (record_leader_services_total ns n)) services
    slices ←
        retry_do_with_metrics r.libraries.default_retry
          (fetch_slices ns ((endpoint_slice_managed_by_label, managed_by_value) ∷ [])) ns ""
          "list_endpointslices_metrics"
    record_total ns (λ n. record_metric (record_endpoint_slices_total ns n)) slices)

  module _ (svc : Service) (leader_name : String) where
    abbrev uid_or_empty : Result Service → String
    uid_or_empty (ok s) = s.uid
    uid_or_empty (err e) = ""

    -- the new slice, with the leader service as its owner
    unfoldable pub new_slice : String → String → Endpoint → List EndpointPort → EndpointSlice
    new_slice owner_uid type endpoint ports = record {
      namespace = svc.namespace;
      name = leader_name;
      labels = slice_labels svc leader_name;
      owner_references =
          record {
            api_version = "v1";
            kind = "Service";
            name = leader_name;
            uid = owner_uid;
            controller = some true;
          }
          ∷ [];
      address_type = type;
      endpoints = endpoint ∷ [];
      ports = ports;
    }

    unfoldable pub written : String → Result (Unit {0}) → M (Result (Unit {0}))
    written text (ok u) = pure (ok tt)
    written text (err e) = do
      record_metric (record_endpoint_write_error svc.namespace svc.name)
      pure (err (wrap text e))

    -- what follows the creation
    unfoldable pub after_create : Result (Unit {0}) → M (Result (Unit {0}))
    after_create created = do
      result ← written "failed to create endpoint slice" created
      elim result [
        | err e ↦ pure (err e)
        | ok u ↦ (do update_resource_totals svc.namespace; pure (ok tt))
      ]

    unfoldable pub create_new_slice : String → Endpoint → List EndpointPort → M (Result (Unit {0}))
    create_new_slice type endpoint ports = do
      owner ←
          retry_do_with_metrics r.libraries.default_retry
            (fetch_service (record { namespace = svc.namespace; name = leader_name })) svc.namespace
            svc.name "get_leader_service_validation"
      created ←
          retry_do_with_metrics r.fast_retry_config
            (send_create_slice (new_slice (uid_or_empty owner) type endpoint ports)) svc.namespace
            svc.name "create_endpointslice"
      after_create created

    unfoldable pub patch_existing_slice :
        EndpointSlice → String → Endpoint → List EndpointPort → M (Result (Unit {0}))
    patch_existing_slice old type endpoint ports = do
      patched ←
          retry_do_with_metrics r.fast_retry_config
            (send_patch_slice old
              (record old { endpoints = endpoint ∷ []; ports = ports; address_type = type }))
            svc.namespace svc.name "patch_endpointslice"
      written "failed to patch endpoint slice" patched

    unfoldable pub write_slice : String → Endpoint → List EndpointPort → M (Result (Unit {0}))
    write_slice type endpoint ports = do
      found ←
          retry_do_with_metrics r.libraries.default_retry
            (fetch_slice (record { namespace = svc.namespace; name = leader_name })) svc.namespace
            svc.name "get_endpointslice_reconcile"
      elim found [
        | ok old ↦ patch_existing_slice old type endpoint ports
        | err e ↦
            if is_not_found e
            then create_new_slice type endpoint ports
            else pure (err (wrap "failed to get endpoint slice" e))
      ]

    abbrev pub with_ports : Option Pod → Result (List EndpointPort) → M (Result (Unit {0}))
    with_ports leader (err e) = pure (err e)
    with_ports leader (ok ports) = write_slice (address_type leader) (build_endpoint leader) ports

    -- reconcileEndpointSlice
    unfoldable pub reconcile_endpoint_slice : Option Pod → List ServicePort → M (Result (Unit {0}))
    reconcile_endpoint_slice leader service_ports =
        if no_ports service_ports && is_some leader
        then pure (err (other "service has no ports configured"))
        else with_ports leader (endpoint_ports service_ports)
