-- ===== src/Director/Select/Reads.antt =====
-- The effect of selectLeaderPod on the shared state, as calls and sections.
use zen_lead.Base.{Bool, not, ◌&&◌, Option, none, some, List}
use zen_lead.Kube.Objects.{Pod, Service}
use zen_lead.Director.Reconciler.{Reconciler}
use zen_lead.Director.Sections.{Terms, Does, Does-pure, Does-bind, Does-if, Does-now, does_rules}
use zen_lead.Director.Retry.Laws.{RetryLaws}
use zen_lead.Director.Sections.Retries.{Does-retry}
use zen_lead.Director.Naming.{get_min_ready_duration}
use zen_lead.Director.Select.{
  is_sticky, earliest_ready, fetch_sticky, note_sticky, check_sticky, note_selected,
  select_earliest, select_leader_pod,
}

module _ ⦃r : Reconciler⦄ (laws : RetryLaws r) {terms : Terms} where
  note_sticky-Does : (svc : Service) (o : Option Pod) → Does terms (note_sticky svc o)
  unfolding note_sticky
  note_sticky-Does svc none = search does_rules
  note_sticky-Does svc (some p) = search does_rules

  check_sticky-Does : (svc : Service) (pods : List Pod) → Does terms (check_sticky svc pods)
  unfolding check_sticky fetch_sticky
  check_sticky-Does svc pods = search (does_rules, Does-retry laws, note_sticky-Does) depth 7

  note_selected-Does : (o : Option Pod) → Does terms (note_selected o)
  unfolding note_selected
  note_selected-Does none = search does_rules
  note_selected-Does (some p) = Does-pure _

  select_earliest-Does : (svc : Service) (pods : List Pod) → Does terms (select_earliest svc pods)
  unfolding select_earliest
  select_earliest-Does svc pods =
      Does-bind _ _ Does-now
        (λ time. note_selected-Does (earliest_ready (get_min_ready_duration svc) time pods))

  pub select_leader_pod-Does :
      (svc : Service) (pods : List Pod) (bypass : Bool)
      → Does terms (select_leader_pod svc pods bypass)
  unfolding select_leader_pod
  select_leader_pod-Does svc pods bypass =
      Does-if (is_sticky svc && not bypass) _ _
        (Does-bind _ _ (check_sticky-Does svc pods)
          (elim [ some p ↦ Does-pure _ | none ↦ select_earliest-Does svc pods ]))
        (select_earliest-Does svc pods)
