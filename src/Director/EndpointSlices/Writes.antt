-- ===== src/Director/EndpointSlices/Writes.antt =====
-- What reconcileEndpointSlice leads to if it succeeds, given what its creation and its patch lead to.
use zen_lead.Base.{ℕ, ◌≡◌, refl, true, String, Option, List, [], ◌∷◌, is_some, length, ◌&&◌}
use zen_lead.Kube.Objects.{Pod, Service, ServicePort, Endpoint, EndpointPort, EndpointSlice}
use zen_lead.Kube.Errors.{Result, ok, err, is_ok, is_not_found}
use zen_lead.Director.Reconciler.{create_slice, patch_slice, Calls, Reconciler, M}
use zen_lead.Director.Calls.{fetch_slice, send_create_slice, send_patch_slice}
use zen_lead.Director.Keeps.{
  Stable, Post, Leads, Leads-if, Leads-ok, Leads-err, Leads-bind, Leads-step, Anything,
  Anything-Stable, Keeps-Anything,
}
use zen_lead.Director.Retry.{retry_do_with_metrics}
use zen_lead.Director.Retry.Laws.{RetryLaws, Leads-retry}
use zen_lead.Director.Sections.{Terms, Does, does_rules}
use zen_lead.Director.Sections.Retries.{Does-retry}
use zen_lead.Director.Sections.Reached.{Does-Keeps}
use zen_lead.Director.EndpointSlices.{
  endpoint_ports, build_endpoint, address_type, record_total, update_resource_totals, new_slice,
  written, after_create, create_new_slice, patch_existing_slice, write_slice, no_ports, with_ports,
  reconcile_endpoint_slice,
}

-- What is known of a slice that was read.
abbrev pub Fetched : (EndpointSlice → Type 0) → Result EndpointSlice → Type 0
Fetched Known (ok x) = Known x
Fetched Known (err e) = Unit

module _ ⦃r : Reconciler⦄ (laws : RetryLaws r) where
  record_total-Does :
      {terms : Terms} {A : Type 0} (ns : String) (note : ℕ → M (Unit {0}))
      → ((n : ℕ) → Does terms (note n))
      → (q : Result (List A)) → Does terms (record_total ns note q)
  unfolding record_total
  record_total-Does ns note d (ok items) = d (length items)
  record_total-Does ns note d (err e) = search does_rules

  pub update_resource_totals-Does :
      {terms : Terms} (ns : String) → Does terms (update_resource_totals ns)
  unfolding update_resource_totals
  update_resource_totals-Does ns = search (does_rules, Does-retry laws, record_total-Does) depth 9

  module _ (svc : Service) (leader_name : String) {Known : EndpointSlice → Type 0}
      (fetched : (cs : Calls)
        → Fetched Known (
            r.client.get_slice cs (record { namespace = svc.namespace; name = leader_name }))) where
    fetch_slice-Leads :
        (op : String)
        → Leads Anything Anything
            (retry_do_with_metrics r.libraries.default_retry
              (fetch_slice (record { namespace = svc.namespace; name = leader_name }))
              svc.namespace
              svc.name
              op)
            (λ x cs. Known x)
    unfolding fetch_slice
    fetch_slice-Leads op =
        Leads-retry laws Anything-Stable (λ x cs. Known x) (λ x c cs q k. k) _ _ svc.namespace
          svc.name op (record { to = λ s h. at_answer _ _ (fetched s.calls) })
      where
        at_answer :
            (a : Result EndpointSlice) (cs : Calls)
            → Fetched Known a
            → Post Anything (λ x cs. Known x) a cs
        at_answer (ok x) cs k = k
        at_answer (err e) cs k = tt

    module _ (type : String) (endpoint : Endpoint) (ports : List EndpointPort) {Q : Calls → Type 0}
        (stQ : Stable Q)
        (created : (uid : String) (cs : Calls)
          → Q (create_slice (new_slice svc leader_name uid type endpoint ports) true ∷ cs))
        (patched : (old : EndpointSlice)
          → Known old
          → (cs : Calls)
          → Q (
              patch_slice old
                (record old { endpoints = endpoint ∷ []; ports = ports; address_type = type })
                true
              ∷ cs)) where
      send_create_slice-Leads :
          (uid : String)
          → Leads Anything Anything
              (send_create_slice (new_slice svc leader_name uid type endpoint ports))
              (λ u. Q)
      unfolding send_create_slice
      send_create_slice-Leads uid = record {
        to = λ s h. at_answer (r.client.create_slice s.calls _) s.calls;
      }
        where
          at_answer :
              (a : Result (Unit {0})) (cs : Calls)
              → Post Anything
                  (λ u. Q)
                  a
                  (create_slice (new_slice svc leader_name uid type endpoint ports) (is_ok a) ∷ cs)
          at_answer (ok u) cs = created uid cs
          at_answer (err e) cs = tt

      send_patch_slice-Leads :
          (old : EndpointSlice)
          → Known old
          → Leads Anything Anything
              (send_patch_slice old
                (record old { endpoints = endpoint ∷ []; ports = ports; address_type = type }))
              (λ u. Q)
      unfolding send_patch_slice
      send_patch_slice-Leads old k = record {
        to = λ s h. at_answer (r.client.patch_slice s.calls old _) s.calls;
      }
        where
          at_answer :
              (a : Result (Unit {0})) (cs : Calls)
              → Post Anything
                  (λ u. Q)
                  a
                  (patch_slice old
                      (record old { endpoints = endpoint ∷ []; ports = ports; address_type = type })
                      (is_ok a)
                    ∷ cs)
          at_answer (ok u) cs = patched old k cs
          at_answer (err e) cs = tt

      retried :
          (fn : M (Result (Unit {0}))) (op : String)
          → Leads Anything Anything fn (λ u. Q)
          → Leads Anything Anything
              (retry_do_with_metrics r.fast_retry_config fn svc.namespace svc.name op)
              (λ u. Q)
      retried fn op l =
          Leads-retry laws Anything-Stable (λ u. Q) (λ u. stQ) r.fast_retry_config fn svc.namespace
            svc.name op l

      written-Leads :
          (text : String) (q : Result (Unit {0}))
          → Leads (Post Anything (λ u. Q) q) Anything (written svc leader_name text q) (λ u. Q)
      unfolding written
      written-Leads text (ok u) = Leads-ok tt (λ cs h. h)
      written-Leads text (err e) = Leads-bind _ _ (Keeps-Anything _) (λ u. Leads-err _ (λ cs h. h))

      -- what follows the creation, whether it was accepted or not
      after_create-Leads :
          (q : Result (Unit {0}))
          → Leads (Post Anything (λ u. Q) q) Anything (after_create svc leader_name q) (λ u. Q)
      unfolding after_create
      after_create-Leads q =
          Leads-step (λ u. Q) _ _ (written-Leads _ q)
            (λ u.
              Leads-bind _ _ (Does-Keeps stQ _ (update_resource_totals-Does svc.namespace))
                (λ u. Leads-ok tt (λ cs h. h)))
            (λ e. Leads-err e (λ cs h. h))

      create_new_slice-Leads :
          Leads Anything Anything (create_new_slice svc leader_name type endpoint ports) (λ u. Q)
      unfolding create_new_slice
      create_new_slice-Leads = Leads-bind _ _ (Keeps-Anything _) λ owner.
          Leads-step (λ u. Q) _ _ (retried _ "create_endpointslice" (send_create_slice-Leads _))
            (λ u. after_create-Leads (ok u)) (λ e. after_create-Leads (err e))

      patch_existing_slice-Leads :
          (old : EndpointSlice)
          → Known old
          → Leads Anything Anything
              (patch_existing_slice svc leader_name old type endpoint ports)
              (λ u. Q)
      unfolding patch_existing_slice
      patch_existing_slice-Leads old k =
          Leads-step (λ u. Q) _ _ (retried _ "patch_endpointslice" (send_patch_slice-Leads old k))
            (λ u. written-Leads _ (ok u)) (λ e. written-Leads _ (err e))

      -- the slice is created or patched
      pub write_slice-Leads :
          Leads Anything Anything (write_slice svc leader_name type endpoint ports) (λ u. Q)
      unfolding write_slice
      write_slice-Leads =
          Leads-step (λ x cs. Known x) _ _ (fetch_slice-Leads "get_endpointslice_reconcile")
            (λ old. record { to = λ s k. (patch_existing_slice-Leads old k).to s tt })
            (λ e. Leads-if (is_not_found e) _ _ create_new_slice-Leads (Leads-err _ (λ cs h. h)))

  -- What the write leads to, for every list of ports that the service ports give.
  pub reconcile_endpoint_slice-leads_to :
      (svc : Service) (leader_name : String) (leader : Option Pod) (ps : List ServicePort)
      (Q : Calls → Type 0)
      → ((ports : List EndpointPort)
          → endpoint_ports ps ≡ ok ports
          → Leads Anything Anything
              (write_slice svc leader_name (address_type leader) (build_endpoint leader) ports)
              (λ u. Q))
      → Leads Anything Anything (reconcile_endpoint_slice svc leader_name leader ps) (λ u. Q)
  unfolding reconcile_endpoint_slice
  reconcile_endpoint_slice-leads_to svc leader_name leader ps Q step =
      Leads-if (no_ports ps && is_some leader) _ _ (Leads-err _ (λ cs h. h))
        (at_ports (endpoint_ports ps) refl)
    where
      at_ports :
          (q : Result (List EndpointPort))
          → endpoint_ports ps ≡ q
          → Leads Anything Anything (with_ports svc leader_name leader q) (λ u. Q)
      at_ports (err e) h = Leads-err e (λ cs h. h)
      at_ports (ok ports) h = step ports h
