-- ===== src/Manager/Startup.antt =====
-- How far main gets, and which steps it takes.
use zen_lead.Base.{◌≡◌, refl, String, Bool, true, false, Option, none, some, List, [], ◌∷◌, All}
use zen_lead.Kube.Errors.{Result, ok, err}
use zen_lead.Metrics.Vectors.{build_info, Registry, Recorder, Globals, new_recorder}
use zen_lead.Metrics.Registering.{RegistryLaws, new_recorder-registers}
use zen_lead.Manager.{
  Flags, Step, init_tracing, pod_namespace, get_config, make_recorder, start, new_manager,
  set_up_director, set_up_leader_groups, add_healthz_check, add_readyz_check, Outside, Exit, go,
  exit, panic, World, M, and_then, ◌>>=◌, go_or_exit, done, ask, try, recorded, get_recorder,
  register_build_info, if_enabled, set_up, main,
}

-- Steps that are not a given one.
abbrev pub is_start : Step → Bool
is_start start = true
is_start c = false

abbrev pub NotStarted : List Step → Type 0
NotStarted cs = All (λ c. is_start c ≡ false) cs

-- The process has ended, by a panic or with status 1.
abbrev pub Ended : {A : Type 0} → Exit A → Type 0
Ended (go a) = ⊥
Ended (exit n) = n ≡ 1
Ended panic = Unit

module _ ⦃p : Registry⦄ where
  -- From a world with `P` the process ends, and the manager is not started.
  record Stops {A : Type 0} (P : Globals → Type 0) (m : M A) : Type 0 where
    at : (w : World) → P w.globals → NotStarted w.steps → Ended (m w).0 × NotStarted (m w).1.steps

  -- No recorder has been made.
  abbrev IsFresh : Globals → Type 0
  IsFresh g = g.global_recorder ≡ none

  -- The name of the build info is taken.
  abbrev IsTaken : Globals → Type 0
  IsTaken g = p.registered g.registry build_info.metric_name ≡ true

  module _ ⦃o : Outside⦄ where
    -- The other collectors that a step registers take nothing away.
    abbrev pub KeepsRegistry : Type 0
    KeepsRegistry =
        (cs : List Step) (r : p.Collectors) (n : String)
        → p.registered r n ≡ true
        → p.registered (o.registers cs r) n ≡ true

    -- The predicate stays true while something else is registered.
    abbrev IsKept : (Globals → Type 0) → Type 0
    IsKept P =
        (g : Globals) (cs : List Step) → P g → P (record g { registry = o.registers cs g.registry })

    module _ {A B : Type 0} (P : Globals → Type 0) (kept : IsKept P) (c : Step)
        (answer : List Step → Result A) (e : is_start c ≡ false) where
      Stops-ask : (k : A → M B) → ((a : A) → Stops P (k a)) → Stops P (ask c answer >>= k)
      unfolding ask ◌>>=◌
      Stops-ask k h = record { at = λ w x n. at_answer w x n (answer w.steps) }
        where
          at_answer :
              (w : World)
              → P w.globals
              → NotStarted w.steps
              → (r : Result A)
              → Ended (and_then (go_or_exit r, done c w) k).0
                × NotStarted (and_then (go_or_exit r, done c w) k).1.steps
          at_answer w x n (ok a) = (h a).at (done c w) (kept w.globals w.steps x) (e, n)
          at_answer w x n (err f) = (refl, (e, n))

    Stops-recorder :
        {B : Type 0} (k : Recorder → M B)
        → RegistryLaws
        → ((r : Recorder) → Stops IsTaken (k r))
        → Stops IsFresh (get_recorder >>= k)
    unfolding get_recorder ◌>>=◌
    Stops-recorder k laws h = record { at = λ w x n. at_made w x n (new_recorder w.globals) refl }
      where
        at_made :
            (w : World)
            → IsFresh w.globals
            → NotStarted w.steps
            → (made : Option (Recorder × Globals)) → new_recorder w.globals ≡ made
            → let t : World = record w { steps = make_recorder ∷ w.steps } in
              Ended (and_then (recorded made t) k).0
              × NotStarted (and_then (recorded made t) k).1.steps
        at_made w x n none e = (tt, (refl, n))
        at_made w x n (some (r, g)) e =
            (h r).at (record { steps = make_recorder ∷ w.steps; globals = g })
              (new_recorder-registers laws w.globals g r x e) (refl, n)

    Stops-register :
        {B : Type 0} (k : Unit {0} → M B) → RegistryLaws → Stops IsTaken (register_build_info >>= k)
    unfolding register_build_info ◌>>=◌
    Stops-register k laws = record {
      at = λ w x n. rw (laws.refuses build_info w.globals.registry x) (tt, (refl, n));
    }

    Stops-try :
        {A B : Type 0} (P : Globals → Type 0)
        → IsKept P
        → (c : Step) (answer : List Step → Result A) → is_start c ≡ false
        → (k : Unit {0} → M B) → ((a : Unit {0}) → Stops P (k a))
        → Stops P (try c answer >>= k)
    unfolding try ◌>>=◌
    Stops-try P kept c answer e k h = record {
      at = λ w x n. (h tt).at (done c w) (kept w.globals w.steps x) (e, n);
    }

    IsFresh-kept : IsKept IsFresh
    IsFresh-kept g cs h = h

    IsTaken-kept : KeepsRegistry → IsKept IsTaken
    IsTaken-kept keeps g cs h = keeps cs g.registry build_info.metric_name h

    module _ (laws : RegistryLaws) (keeps : KeepsRegistry) where
      Stops-if :
          (b : Bool) (k : Unit {0} → M (Unit {0}))
          → ((a : Unit {0}) → Stops IsTaken (k a))
          → Stops IsTaken (if_enabled b (ask set_up_leader_groups o.set_up_leader_groups) >>= k)
      unfolding ◌>>=◌
      Stops-if true k h = Stops-ask IsTaken (IsTaken-kept keeps) set_up_leader_groups _ refl k h
      Stops-if false k h = h tt

      set_up-Stops : (f : Flags) → Stops IsFresh (set_up f)
      unfolding set_up
      set_up-Stops f =
          let kept = IsTaken-kept keeps in
          Stops-recorder _ laws λ r. Stops-ask IsTaken kept set_up_director _ refl _ λ a.
            Stops-if f.enable_leader_groups _ λ b.
              Stops-ask IsTaken kept (add_healthz_check "healthz") _ refl _ λ c.
                Stops-ask IsTaken kept (add_readyz_check "readyz") _ refl _
                  λ d. Stops-register _ laws

      -- Whatever the flags and whatever is answered, main ends by a panic or with status 1, and does
      -- not start the manager: it registers the build info that the recorder has registered. No
      -- recorder is made before main, and what else is registered takes nothing away.
      pub main-never_starts :
          (f : Flags) (g : Globals)
          → g.global_recorder ≡ none
          → Ended (main f (record { steps = []; globals = g })).0
            × NotStarted (main f (record { steps = []; globals = g })).1.steps
      unfolding main
      main-never_starts f g first =
          let stops : Stops IsFresh (main f) =
            Stops-try IsFresh IsFresh-kept init_tracing _ refl _ λ u.
              Stops-ask IsFresh IsFresh-kept pod_namespace _ refl _ λ ns.
                Stops-ask IsFresh IsFresh-kept get_config _ refl _ λ given.
                  Stops-ask IsFresh IsFresh-kept (new_manager _ _) _ refl _ λ v. set_up-Stops f in
          stops.at (record { steps = []; globals = g }) first tt
