-- ===== src/Metrics/Registering.antt =====
-- NewRecorder makes its recorder once, and registers each vector of it.
use mathlib.Core.Path.{subst}
use zen_lead.Base.{
  ◌≡◌, refl, ℕ, String, Bool, true, false, ◌&&◌, ◌||◌, not, Option, none, some, List, [], ◌∷◌, leb,
  ltb, str_eq, eq_iff, arith,
}
use zen_lead.Metrics.Vectors.{
  Vector, build_info, vectors, Registry, Recorder, Globals, ◌>>=◌, must_register_all, make_recorder,
  new_recorder,
}
use Prim.Native.Char.{code}

abbrev codes : String → List ℕ
codes String.[] = []
codes (String.◌∷◌ c s) = code c ∷ codes s

-- What Prometheus asks of a name: [a-zA-Z_:][a-zA-Z0-9_:]*, here without the colon.
is_letter : ℕ → Bool
is_letter c = (leb b'a' c && leb c b'z') || (leb b'A' c && leb c b'Z') || (leb c b'_' && leb b'_' c)

all_letters : List ℕ → Bool
unfolding is_letter
all_letters [] = true
all_letters (c ∷ cs) = (is_letter c || (leb b'0' c && leb c b'9')) && all_letters cs

is_name : List ℕ → Bool
unfolding all_letters
is_name [] = false
is_name (c ∷ cs) = is_letter c && all_letters cs

all_names : List String → Bool
unfolding is_name
all_names [] = true
all_names (l ∷ ls) = is_name (codes l) && all_names ls

increasing : List ℕ → Bool
increasing [] = true
increasing (a ∷ []) = true
increasing (a ∷ b ∷ r) = ltb a b && increasing (b ∷ r)

-- A vector that Prometheus takes: its names have the right letters, its buckets increase.
pub is_valid : Vector → Bool
unfolding all_names increasing
is_valid v = is_name (codes v.metric_name) && all_names v.labels && increasing v.buckets

abbrev pub named : String → List Vector → Bool
named n [] = false
named n (v ∷ vs) = str_eq v.metric_name n || named n vs

-- No two of the vectors have a metric name in common.
distinct : List Vector → Bool
distinct [] = true
distinct (v ∷ vs) = not (named v.metric_name vs) && distinct vs

all_valid : List Vector → Bool
unfolding is_valid
all_valid [] = true
all_valid (v ∷ vs) = is_valid v && all_valid vs

vectors-distinct : distinct (build_info ∷ vectors) ≡ true
unfolding distinct
vectors-distinct = refl

vectors_valid : all_valid (build_info ∷ vectors) ≡ true
unfolding all_valid is_valid is_name all_names all_letters is_letter increasing
vectors_valid = refl

-- What Prometheus documents of its registry: a second collector of one metric name is refused, and
-- any other valid one is taken, and stays. zen-sdk's recorder takes away nothing.
pub record RegistryLaws ⦃p : Registry⦄ : Type 0 where
  pub refuses :
      (v : Vector) (r : p.Collectors)
      → p.registered r v.metric_name ≡ true
      → p.must_register v r ≡ none
  pub accepts :
      (v : Vector) (r : p.Collectors)
      → is_valid v ≡ true
      → p.registered r v.metric_name ≡ false
      → (next : p.Collectors) × (p.must_register v r ≡ some next)
  pub after :
      (v : Vector) (r next : p.Collectors) (n : String)
      → p.must_register v r ≡ some next
      → p.registered next n ≡ (str_eq v.metric_name n || p.registered r n)
  pub sdk_keeps :
      (r next : p.Collectors) (n : String)
      → p.new_sdk_recorder "zen-lead" r ≡ some next
      → p.registered r n ≡ true
      → p.registered next n ≡ true

bind_through :
    {A B C : Type 0} (m : Option A) (k : A → Option B) (j : B → Option C) {b : B}
    → (m >>= k) ≡ some b
    → (m >>= λ a. k a >>= j) ≡ j b
bind_through none k j e = cc
bind_through (some a) k j e = rw e refl

bind_some :
    {A B : Type 0} (m : Option A) (k : A → Option B) {b : B}
    → (m >>= k) ≡ some b
    → (a : A) × (m ≡ some a) × (k a ≡ some b)
bind_some none k e = cc
bind_some (some a) k e = (a, refl, e)

-- The recorder that is made is the one that is kept.
kept_recorder :
    ⦃p : Registry⦄ (g next : Globals) (made : Recorder)
    → make_recorder g ≡ some (made, next)
    → next.global_recorder ≡ some made
unfolding make_recorder
kept_recorder ⦃p⦄ g next made e =
    let (a, _, after_sdk) = bind_some (p.new_sdk_recorder "zen-lead" g.registry) _ e in
    let (b, _, after_info) = bind_some (p.must_register build_info a) _ after_sdk in
    let (c, _, done) = bind_some (must_register_all vectors b) _ after_info in
    same c (record { fields = vectors }) done
  where
    same :
        (c : p.Collectors) (r : Recorder)
        → ◌≡◌ {A = Option (Recorder × Globals)}
            (some (r, record { global_recorder = some r; registry = c }))
            (some (made, next))
        → next.global_recorder ≡ some made
    same c r h = ground (arith, h)

-- What NewRecorder has returned it returns again, and nothing is registered.
new_recorder-again :
    ⦃p : Registry⦄ (g next : Globals) (made : Recorder)
    → new_recorder g ≡ some (made, next)
    → new_recorder next ≡ some (made, next)
unfolding new_recorder
new_recorder-again ⦃p⦄ g next made e = rw (kept g.global_recorder refl) refl
  where
    kept : (o : Option Recorder) → g.global_recorder ≡ o → next.global_recorder ≡ some made
    kept (some r) q = let h = rw q at e in ground (arith, h, q)
    kept none q = kept_recorder g next made (rw q at e)

module _ ⦃p : Registry⦄ (laws : RegistryLaws) where
  -- No name of the vectors is taken.
  abbrev pub Free : List Vector → p.Collectors → Type 0
  Free [] r = Unit
  Free (v ∷ vs) r = (p.registered r v.metric_name ≡ false) × Free vs r

  still-Free :
      (v : Vector) (r next : p.Collectors) (vs : List Vector)
      → p.must_register v r ≡ some next
      → named v.metric_name vs ≡ false
      → Free vs r
      → Free vs next
  still-Free v r next [] e d h = tt
  still-Free v r next (x ∷ xs) e d h = (
    ground (
      arith,
      laws.after v r next x.metric_name e,
      eq_iff v.metric_name x.metric_name,
      eq_iff x.metric_name v.metric_name,
    ),
    still-Free v r next xs e (ground arith) h.1,
  )

  must_register_all_total :
      (vs : List Vector) (r : p.Collectors)
      → all_valid vs ≡ true
      → distinct vs ≡ true
      → Free vs r
      → (next : p.Collectors) × (must_register_all vs r ≡ some next)
        × ((n : String) → p.registered next n ≡ (named n vs || p.registered r n))
  unfolding must_register_all all_valid distinct
  must_register_all_total [] r v d h = (r, refl, λ n. refl)
  must_register_all_total (x ∷ xs) r v d h =
      let (mid, e) = laws.accepts x r (ground arith) h.0 in
      let (next, all, in_next) =
        must_register_all_total xs mid (ground arith) (ground arith)
          (still-Free x r mid xs e (ground arith) h.1) in
      (next, rw e all, λ n. ground (arith, in_next n, laws.after x r mid n e))

  -- The first NewRecorder of a process returns, and registers the build info and each vector of the
  -- recorder, and nothing else but what zen-sdk's recorder does. From then on it returns the same
  -- recorder and registers nothing. No metric of zen-lead is registered before, and zen-sdk's
  -- recorder is made.
  pub new_recorder_total :
      (g : Globals) (with_sdk : p.Collectors)
      → g.global_recorder ≡ none
      → p.new_sdk_recorder "zen-lead" g.registry ≡ some with_sdk
      → Free (build_info ∷ vectors) with_sdk
      → (next : Globals) × (new_recorder g ≡ some (record { fields = vectors }, next))
        × (new_recorder next ≡ some (record { fields = vectors }, next))
        × ((n : String)
            → p.registered next.registry n
              ≡ (named n (build_info ∷ vectors) || p.registered with_sdk n))
  unfolding new_recorder make_recorder must_register_all
  new_recorder_total g with_sdk first sdk free =
      let (all, e, in_all) =
        must_register_all_total (build_info ∷ vectors) with_sdk vectors_valid vectors-distinct
          free in
      let next : Globals = record {
        global_recorder = some (record { fields = vectors });
        registry = all;
      } in
      let made : new_recorder g ≡ some (record { fields = vectors }, next) =
        rw (first, sdk)
          (bind_through (p.must_register build_info with_sdk) (must_register_all vectors) _ e) in
      (next, made, new_recorder-again g next _ made, in_all)

-- The first recorder of a process leaves the name of the build info taken.
module _ ⦃p : Registry⦄ (laws : RegistryLaws) where
  must_register_all-keeps :
      (vs : List Vector) (r next : p.Collectors) (n : String)
      → must_register_all vs r ≡ some next
      → p.registered r n ≡ true
      → p.registered next n ≡ true
  unfolding must_register_all
  must_register_all-keeps [] r next n e h = ground (arith, e, h)
  must_register_all-keeps (v ∷ vs) r next n e h =
      let (mid, first, rest) = bind_some (p.must_register v r) _ e in
      must_register_all-keeps vs mid next n rest (ground (arith, laws.after v r mid n first, h))

  pub new_recorder-registers :
      (g next : Globals) (made : Recorder)
      → g.global_recorder ≡ none
      → new_recorder g ≡ some (made, next)
      → p.registered next.registry build_info.metric_name ≡ true
  unfolding new_recorder make_recorder
  new_recorder-registers g next made first e =
      let (a, _, after_sdk) =
        bind_some (p.new_sdk_recorder "zen-lead" g.registry) _ (rw first at e) in
      let (b, info, after_info) = bind_some (p.must_register build_info a) _ after_sdk in
      let (c, all, done) = bind_some (must_register_all vectors b) _ after_info in
      let taken : p.registered b build_info.metric_name ≡ true =
        laws.after build_info a b build_info.metric_name info in
      same c (record { fields = vectors }) done
        (must_register_all-keeps vectors b c build_info.metric_name all taken)
    where
      same :
          (c : p.Collectors) (r : Recorder)
          → ◌≡◌ {A = Option (Recorder × Globals)}
              (some (r, record { global_recorder = some r; registry = c }))
              (some (made, next))
          → p.registered c build_info.metric_name ≡ true
          → p.registered next.registry build_info.metric_name ≡ true
      same c r h t =
          let q : c ≡ next.registry = ground (arith, h) in
          subst (λ x. p.registered x build_info.metric_name ≡ true) q t
