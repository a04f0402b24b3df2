-- ===== src/Director/Cleanup.antt =====
-- service_director.go: cleanupLeaderResources, for a service that is gone or no longer opted in.
pub mod Deletes
use zen_lead.Base.{List, [], ◌∷◌}
use zen_lead.Kube.Objects.{Key, Service}
use zen_lead.Kube.Errors.{Result, ok, err}
use zen_lead.Director.Reconciler.{Reconciler, M, ◌>>=◌, ◌>>◌, pure}
use zen_lead.Director.Calls.{fetch_service, fetch_services, send_delete_service}
use zen_lead.Director.Retry.{retry_do_with_metrics}
use zen_lead.Director.Naming.{
  managed_by_label, source_service_label, managed_by_value, get_leader_service_name,
}

module _ ⦃r : Reconciler⦄ (key : Key) where
  -- the leader service that the name of the source service gives
  unfoldable pub delete_by_name : Service → M (Result (Unit {0}))
  delete_by_name svc = do
    found ←
        retry_do_with_metrics r.libraries.default_retry
          (fetch_service (record { namespace = key.namespace; name = get_leader_service_name svc }))
          key.namespace key.name "get_leader_service_cleanup"
    elim found [
      | err e ↦ pure (ok tt)
      | ok leader ↦
          retry_do_with_metrics r.libraries.default_retry (send_delete_service leader) key.namespace
            key.name "delete_leader_service"
    ]

  -- the loop over the listed leader services: an error is logged and passed over
  unfoldable pub delete_each : List Service → M (Unit {0})
  delete_each [] = pure tt
  delete_each (s ∷ rest) = do
    deleted ←
        retry_do_with_metrics r.libraries.default_retry (send_delete_service s) key.namespace
          key.name "delete_leader_service_by_label"
    delete_each rest

  -- the leader services that the labels give
  unfoldable pub delete_by_label : M (Result (Unit {0}))
  delete_by_label = do
    listed ←
        retry_do_with_metrics r.libraries.default_retry
          (fetch_services key.namespace
            ((source_service_label, key.name) ∷ (managed_by_label, managed_by_value) ∷ []))
          key.namespace key.name "list_leader_services_cleanup"
    elim listed [ err e ↦ pure (ok tt) | ok items ↦ (do delete_each items; pure (ok tt)) ]

  -- cleanupLeaderResources; its ctrl.Result is always empty
  unfoldable pub cleanup_leader_resources : M (Result (Unit {0}))
  cleanup_leader_resources = do
    found ←
        retry_do_with_metrics r.libraries.default_retry (fetch_service key) key.namespace key.name
          "get_service_cleanup"
    elim found [ ok svc ↦ delete_by_name svc | err e ↦ delete_by_label ]
