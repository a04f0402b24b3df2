-- ===== src/Director/Sections/Reached.antt =====
-- What follows for the calls from how an action is made.
use zen_lead.Base.{◌≡◌, false, ◌∷◌}
use zen_lead.Director.Reconciler.{Call, Calls, Reconciler, State, M}
use zen_lead.Director.Keeps.{is_write, Stable, Keeps}
use zen_lead.Director.Sections.{
  Terms, Section, call, remove, put, refresh, touch, store_leader, clear_leader, drop_leaders,
  Sections, nothing, next, Does,
}

module _ ⦃r : Reconciler⦄ {t : Terms} {P : Calls → Type 0}
    (step : (c : Call) (cs : Calls) → t.Allowed c → P cs → P (c ∷ cs)) where
  Section-calls : {s u : State} → Section t s u → P s.calls → P u.calls
  Section-calls {s} (call c a) h = step c s.calls a h
  Section-calls (remove svc) h = h
  Section-calls (put svc time c) h = h
  Section-calls (refresh ns services u l) h = h
  Section-calls (touch ns time) h = h
  Section-calls (store_leader key pod until) h = h
  Section-calls (clear_leader key) h = h
  Section-calls (drop_leaders time) h = h

  -- What every call keeps, the whole keeps.
  pub Sections-calls : {s u : State} → Sections t s u → P s.calls → P u.calls
  Sections-calls nothing h = h
  Sections-calls (next a b) h = Section-calls b (Sections-calls a h)

-- Calls that change nothing in the cluster.
abbrev pub reading : ⦃r : Reconciler⦄ → Terms
reading = record {
  Allowed = λ c. is_write c ≡ false;
  Listing = λ services. Unit {0};
  quiet = λ c q. q;
  listed = λ cs ns services e. tt;
}

pub Does-Keeps :
    ⦃r : Reconciler⦄ {P : Calls → Type 0} (st : Stable P) {A : Type 0} (m : M A)
    → Does reading m
    → Keeps P m
Does-Keeps st m d = record { at = λ s h. Sections-calls st (d.at s s nothing) h }
