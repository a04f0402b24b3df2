-- ===== src/Manager/Groups.antt =====
-- The optional controller of LeaderGroups in main.
use zen_lead.Base.{◌≡◌, refl, Bool, true, false, Option, none, some, List, [], ◌∷◌, All}
use zen_lead.Kube.Errors.{Result}
use zen_lead.Metrics.Vectors.{build_info, Registry, Recorder, Globals, new_recorder}
use zen_lead.Manager.{
  Flags, Step, init_tracing, pod_namespace, get_config, make_recorder, register_info, start,
  new_manager, set_up_director, set_up_leader_groups, add_healthz_check, add_readyz_check, Outside,
  Exit, go, exit, panic, World, M, and_then, ◌>>=◌, ask, try, recorded, get_recorder,
  registered_with, register_build_info, set_up, main,
}

-- Where the flag is off, no step sets up the controller of LeaderGroups.
abbrev pub is_groups : Step → Bool
is_groups set_up_leader_groups = true
is_groups c = false

abbrev pub NoGroups : List Step → Type 0
NoGroups cs = All (λ c. is_groups c ≡ false) cs

module _ ⦃p : Registry⦄ where
  record Leaves {A : Type 0} (m : M A) : Type 0 where
    at : (w : World) → NoGroups w.steps → NoGroups (m w).1.steps

  Leaves-bind :
      {A B : Type 0} (m : M A) (k : A → M B)
      → Leaves m
      → ((a : A) → Leaves (k a))
      → Leaves (m >>= k)
  unfolding ◌>>=◌
  Leaves-bind {A} {B} m k h j = record { at = λ w n. at_exit w (m w) (h.at w n) }
    where
      at_exit :
          (w : World) (r : Exit A × World) → NoGroups r.1.steps → NoGroups (and_then r k).1.steps
      at_exit w (go a, t) n = (j a).at t n
      at_exit w (exit c, t) n = n
      at_exit w (panic, t) n = n

  module _ ⦃o : Outside⦄ where
    Leaves-ask :
        {A : Type 0} (c : Step) (answer : List Step → Result A)
        → is_groups c ≡ false
        → Leaves (ask c answer)
    unfolding ask
    Leaves-ask c answer e = record { at = λ w n. (e, n) }

    Leaves-try :
        {A : Type 0} (c : Step) (answer : List Step → Result A)
        → is_groups c ≡ false
        → Leaves (try c answer)
    unfolding try
    Leaves-try c answer e = record { at = λ w n. (e, n) }

    Leaves-recorder : Leaves get_recorder
    unfolding get_recorder
    Leaves-recorder = record { at = λ w n. at_made w (new_recorder w.globals) n }
      where
        at_made :
            (w : World) (made : Option (Recorder × Globals))
            → NoGroups w.steps
            → NoGroups (recorded made (record w { steps = make_recorder ∷ w.steps })).1.steps
        at_made w none n = (refl, n)
        at_made w (some (r, g)) n = (refl, n)

    Leaves-register : Leaves register_build_info
    unfolding register_build_info
    Leaves-register = record {
      at = λ w n. at_registry w (p.must_register build_info w.globals.registry) n;
    }
      where
        at_registry :
            (w : World) (r : Option p.Collectors)
            → NoGroups w.steps
            → NoGroups (registered_with r (record w { steps = register_info ∷ w.steps })).1.steps
        at_registry w none n = (refl, n)
        at_registry w (some r) n = (refl, n)

    set_up-Leaves : (f : Flags) → f.enable_leader_groups ≡ false → Leaves (set_up f)
    unfolding set_up
    set_up-Leaves f off = Leaves-bind _ _ Leaves-recorder λ r.
        Leaves-bind _ _ (Leaves-ask set_up_director _ refl) λ a.
          Leaves-bind _ _ (rw off (record { at = λ w n. n })) λ b.
            Leaves-bind _ _ (Leaves-ask (add_healthz_check "healthz") _ refl) λ c.
              Leaves-bind _ _ (Leaves-ask (add_readyz_check "readyz") _ refl) λ d.
                Leaves-bind _ _ Leaves-register λ e.
                  Leaves-bind _ _ (record { at = λ w n. (refl, n) }) λ g. Leaves-ask start _ refl

    -- Without -enable-leader-groups the controller of LeaderGroups is never set up, whatever is
    -- answered.
    pub main-NoGroups :
        (f : Flags) (g : Globals)
        → f.enable_leader_groups ≡ false
        → NoGroups (main f (record { steps = []; globals = g })).1.steps
    unfolding main
    main-NoGroups f g off =
        let leaves : Leaves (main f) = Leaves-bind _ _ (Leaves-try init_tracing _ refl) λ u.
          Leaves-bind _ _ (Leaves-ask pod_namespace _ refl) λ ns.
            Leaves-bind _ _ (Leaves-ask get_config _ refl) λ given.
              Leaves-bind _ _ (Leaves-ask (new_manager _ _) _ refl) λ v. set_up-Leaves f off in
        leaves.at (record { steps = []; globals = g }) tt
