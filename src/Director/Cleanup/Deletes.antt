-- ===== src/Director/Cleanup/Deletes.antt =====
-- Which leader services cleanupLeaderResources deletes.
use zen_lead.Base.{◌≡◌, refl, inl, inr, true, String, List, [], ◌∷◌, All, In}
use zen_lead.Base.Int.{is_pos}
use zen_lead.Kube.Objects.{Key, Service}
use zen_lead.Kube.Errors.{Result, ok, err, is_ok}
use zen_lead.Director.Reconciler.{delete_service, Calls, Reconciler, State, M, ◌>>=◌, ◌>>◌, pure}
use zen_lead.Director.Calls.{fetch_service, fetch_services, send_delete_service}
use zen_lead.Director.Keeps.{
  Stable, Keeps, Keeps-pure, Keeps-bind, Post, Leads, Leads-value, Anything, Anything-Stable,
}
use zen_lead.Director.Succeeds.{IsOk, IsPatient, Always-retry}
use zen_lead.Director.Retry.{retry_do_with_metrics}
use zen_lead.Director.Retry.Laws.{RetryLaws, Leads-retry, Keeps-retry}
use zen_lead.Director.Naming.{
  managed_by_label, source_service_label, managed_by_value, get_leader_service_name,
}
use zen_lead.Director.Cleanup.{
  delete_by_name, delete_each, delete_by_label, cleanup_leader_resources,
}

-- The server has accepted the deletion of the service.
abbrev pub Deleted : Service → Calls → Type 0
Deleted x cs = In (delete_service x true) cs

Deleted-Stable : (x : Service) → Stable (Deleted x)
Deleted-Stable x c cs h d = inr d

-- What is there to delete: the leader service that the source names, while the source is there, and
-- else the services that bear its labels.
abbrev found_items : Result (List Service) → List Service
found_items (ok xs) = xs
found_items (err e) = []

abbrev found_item : Result Service → List Service
found_item (ok x) = x ∷ []
found_item (err e) = []

module _ ⦃r : Reconciler⦄ (key : Key) where
  abbrev read_source : M (Result Service)
  read_source =
      retry_do_with_metrics r.libraries.default_retry (fetch_service key) key.namespace key.name
        "get_service_cleanup"

  abbrev read_leader : Service → M (Result Service)
  read_leader svc =
      retry_do_with_metrics r.libraries.default_retry
        (fetch_service (record { namespace = key.namespace; name = get_leader_service_name svc }))
        key.namespace key.name "get_leader_service_cleanup"

  abbrev read_labelled : M (Result (List Service))
  read_labelled =
      retry_do_with_metrics r.libraries.default_retry
        (fetch_services key.namespace
          ((source_service_label, key.name) ∷ (managed_by_label, managed_by_value) ∷ []))
        key.namespace key.name "list_leader_services_cleanup"

  abbrev leftover : Result Service → State → List Service
  leftover (ok svc) s = found_item (read_leader svc s).0
  leftover (err e) s = found_items (read_labelled s).0

  abbrev pub leftovers : State → List Service
  leftovers s = leftover (read_source s).0 (read_source s).1

module _ ⦃r : Reconciler⦄ (laws : RetryLaws r) (patient : IsPatient r)
    (attempts : is_pos r.libraries.default_retry.max_attempts ≡ true)
    (accepts : (cs : Calls) (x : Service) → IsOk (r.client.delete_service cs x)) where
  send_delete_service-Deleted :
      (x : Service) → Leads Anything Anything (send_delete_service x) (λ u. Deleted x)
  unfolding send_delete_service
  send_delete_service-Deleted x = record {
    to = λ s h. at_answer s.calls (r.client.delete_service s.calls x);
  }
    where
      at_answer :
          (cs : Calls) (q : Result (Unit {0}))
          → Post Anything (λ u. Deleted x) q (delete_service x (is_ok q) ∷ cs)
      at_answer cs (ok u) = inl refl
      at_answer cs (err e) = tt

  send_delete_service-Keeps : (x y : Service) → Keeps (Deleted x) (send_delete_service y)
  unfolding send_delete_service
  send_delete_service-Keeps x y = record { at = λ s h. inr h }

  ok_value : (q : Result (Unit {0})) → IsOk q → q ≡ ok tt
  ok_value (ok u) h = refl
  ok_value (err e) h = absurd h.0

  -- A deletion that is tried again until it is accepted.
  retried-Deleted :
      (x : Service) (ns svc op : String) (s : State)
      → Deleted x
          (retry_do_with_metrics r.libraries.default_retry
            (send_delete_service x)
            ns
            svc
            op
            s).1.calls
  unfolding send_delete_service
  retried-Deleted x ns svc op s =
      let m = retry_do_with_metrics r.libraries.default_retry (send_delete_service x) ns svc op in
      Leads-value m
        (Leads-retry laws Anything-Stable (λ u. Deleted x) (λ u. Deleted-Stable x) _ _ ns svc op
          (send_delete_service-Deleted x))
        s tt tt
        (ok_value (m s).0 (
          (Always-retry patient (λ u. Unit {0}) ⊥ _ _ ns svc op attempts
              (record { at = λ t. accepts t.calls x })).at
            s))

  module _ (key : Key) where
    delete_each-Keeps : (x : Service) (ys : List Service) → Keeps (Deleted x) (delete_each key ys)
    unfolding delete_each
    delete_each-Keeps x [] = Keeps-pure tt
    delete_each-Keeps x (y ∷ ys) =
        Keeps-bind _ _
          (Keeps-retry laws (Deleted-Stable x) _ _ _ _ _ (send_delete_service-Keeps x y))
          λ u. delete_each-Keeps x ys

    delete_each-Deleted :
        (xs : List Service) (s : State) → All (λ x. Deleted x (delete_each key xs s).1.calls) xs
    unfolding delete_each ◌>>=◌
    delete_each-Deleted [] s = tt
    delete_each-Deleted (x ∷ xs) s =
        let mid =
          (retry_do_with_metrics r.libraries.default_retry (send_delete_service x) key.namespace
            key.name "delete_leader_service_by_label" s).1 in
        ((delete_each-Keeps x xs).at mid (retried-Deleted x _ _ _ s), delete_each-Deleted xs mid)

    delete_by_name-Deleted :
        (svc : Service) (s : State)
        → All
            (λ x. Deleted x (delete_by_name key svc s).1.calls)
            (found_item (read_leader key svc s).0)
    unfolding delete_by_name ◌>>=◌
    delete_by_name-Deleted svc s = at_leader (read_leader key svc s).0 (read_leader key svc s).1
      where
        at_leader :
            (q : Result Service) (t : State)
            → let next : M (Result (Unit {0})) = elim q [
              | err e ↦ pure (ok tt)
              | ok leader ↦
                  retry_do_with_metrics r.libraries.default_retry
                    (send_delete_service leader)
                    key.namespace
                    key.name
                    "delete_leader_service"
            ] in
              All (λ x. Deleted x (next t).1.calls) (found_item q)
        at_leader (err e) t = tt
        at_leader (ok x) t = (retried-Deleted x _ _ _ t, tt)

    delete_by_label-Deleted :
        (s : State)
        → All (λ x. Deleted x (delete_by_label key s).1.calls) (found_items (read_labelled key s).0)
    unfolding delete_by_label ◌>>=◌
    delete_by_label-Deleted s = at_list (read_labelled key s).0 (read_labelled key s).1
      where
        at_list :
            (q : Result (List Service)) (t : State)
            → let next : M (Result (Unit {0})) = elim q [
              | err e ↦ pure (ok tt)
              | ok items ↦ (do delete_each key items; pure (ok tt))
            ] in
              All (λ x. Deleted x (next t).1.calls) (found_items q)
        at_list (err e) t = tt
        at_list (ok xs) t = delete_each-Deleted xs t

    -- While the server accepts deletions and no context ends, cleanupLeaderResources deletes each
    -- service that it finds: the leader service that the source names, as long as the source is there,
    -- and else every service that is labelled as managed for the source.
    pub cleanup_leader_resources-Deleted :
        (s : State)
        → All (λ x. Deleted x (cleanup_leader_resources key s).1.calls) (leftovers key s)
    unfolding cleanup_leader_resources ◌>>=◌
    cleanup_leader_resources-Deleted s = at_source (read_source key s).0 (read_source key s).1
      where
        at_source :
            (q : Result Service) (t : State)
            → let next : M (Result (Unit {0})) = elim q [
              | ok svc ↦ delete_by_name key svc
              | err e ↦ delete_by_label key
            ] in
              All (λ x. Deleted x (next t).1.calls) (leftover key q t)
        at_source (ok svc) t = delete_by_name-Deleted svc t
        at_source (err e) t = delete_by_label-Deleted t
