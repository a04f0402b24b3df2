-- ===== src/Director/Calls.antt =====
-- One call of the client, the clock, the event recorder or the metrics recorder each.
use zen_lead.Base.{ℕ, String, Bool, true, false, List, [], ◌∷◌}
use zen_lead.Base.Dict.{Dict}
use zen_lead.Kube.Objects.{Key, Pod, Service, EndpointSlice}
use zen_lead.Kube.Errors.{Result, is_ok}
use zen_lead.Metrics.{Sample}
use zen_lead.Director.Reconciler.{
  read_clock, get_service, get_pod, get_slice, list_pods, list_services, list_slices,
  create_service, delete_service, patch_service, create_slice, delete_slice, patch_slice, event,
  sample, Reconciler, State, M, log,
}

abbrev pub send_samples : List Sample → State → State
send_samples [] s = s
send_samples (x ∷ xs) s = send_samples xs (log (sample x) s)

-- r.Recorder.Event, less its message
unfoldable pub record_event : String → String → M (Unit {0})
record_event kind reason s = (tt, log (event kind reason) s)

module _ ⦃r : Reconciler⦄ where
  -- time.Now
  unfoldable pub now : M ℕ
  now s = (r.client.now s.calls, log read_clock s)

  abbrev pub when_on : Bool → List Sample → State → State
  when_on true xs s = send_samples xs s
  when_on false xs s = s

  -- `if r.Metrics != nil { r.Metrics.Record… }`
  unfoldable pub record_metric : List Sample → M (Unit {0})
  record_metric xs s = (tt, when_on r.metrics xs s)

  -- errors.Is(ctx.Err(), context.DeadlineExceeded)
  unfoldable pub deadline_exceeded : M Bool
  deadline_exceeded s = (r.client.deadline_exceeded s.calls, s)

  unfoldable pub fetch_service : Key → M (Result Service)
  fetch_service k s = (r.client.get_service s.calls k, log (get_service k) s)

  unfoldable pub fetch_pod : Key → M (Result Pod)
  fetch_pod k s = (r.client.get_pod s.calls k, log (get_pod k) s)

  unfoldable pub fetch_slice : Key → M (Result EndpointSlice)
  fetch_slice k s = (r.client.get_slice s.calls k, log (get_slice k) s)

  unfoldable pub fetch_pods : String → Dict String → M (Result (List Pod))
  fetch_pods ns l s = (r.client.list_pods s.calls ns l, log (list_pods ns l) s)

  unfoldable pub fetch_services : String → Dict String → M (Result (List Service))
  fetch_services ns l s = (r.client.list_services s.calls ns l, log (list_services ns l) s)

  unfoldable pub fetch_slices : String → Dict String → M (Result (List EndpointSlice))
  fetch_slices ns l s = (r.client.list_slices s.calls ns l, log (list_slices ns l) s)

  unfoldable pub send_create_service : Service → M (Result (Unit {0}))
  send_create_service x s =
      let a = r.client.create_service s.calls x in (a, log (create_service x (is_ok a)) s)

  unfoldable pub send_patch_service : Service → Service → M (Result (Unit {0}))
  send_patch_service old x s =
      let a = r.client.patch_service s.calls old x in (a, log (patch_service old x (is_ok a)) s)

  unfoldable pub send_delete_service : Service → M (Result (Unit {0}))
  send_delete_service x s =
      let a = r.client.delete_service s.calls x in (a, log (delete_service x (is_ok a)) s)

  unfoldable pub send_create_slice : EndpointSlice → M (Result (Unit {0}))
  send_create_slice x s =
      let a = r.client.create_slice s.calls x in (a, log (create_slice x (is_ok a)) s)

  unfoldable pub send_patch_slice : EndpointSlice → EndpointSlice → M (Result (Unit {0}))
  send_patch_slice old x s =
      let a = r.client.patch_slice s.calls old x in (a, log (patch_slice old x (is_ok a)) s)

  unfoldable pub send_delete_slice : EndpointSlice → M (Result (Unit {0}))
  send_delete_slice x s =
      let a = r.client.delete_slice s.calls x in (a, log (delete_slice x (is_ok a)) s)
