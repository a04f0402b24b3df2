-- ===== src/Api/DeepCopy/Rules.antt =====
-- Copying functions for the shapes of leadergroup_types.go, put together from those for the parts.
use mathlib.Core.Path.{subst}
use zen_lead.Base.{◌≤◌, ◌≡◌, refl, sym, ap, ◌∙◌, Option, none, some, List, [], ◌∷◌, arith}
use zen_lead.Api.Memory.{
  Foreign, Sort, Address, Pointer, Content, Heap, Same, M, pure, ◌>>=◌, load, alloc, load-alloc,
  alloc-Same, next-alloc,
}
use zen_lead.Api.DeepCopy.{copy_pointer, copy_list, copy_option}
use zen_lead.Api.DeepCopy.Shapes.{Shape, plain, via, Both, ◌&◌, both, option, list, pointer}

module _ ⦃f : Foreign⦄ where
  -- `y` in `g` is a deep copy of `x` in `h`: no cell that was in use has changed, the copy stands for
  -- the same value, and all its cells are new.
  pub record IsDeepCopy {X : Type 0} (S : Shape X) (x : X) (h : Heap) (y : X) (g : Heap)
      : Type 0 where
    pub grows : h.next ≤ g.next
    pub kept : Same 0 h.next g h
    pub same : S.view g y ≡ S.view h x
    pub fresh : S.Within h.next g.next g y

  -- The function makes a deep copy of each value whose cells are in use.
  pub record Copies {X : Type 0} (S : Shape X) (copy : X → M X) : Type 0 where
    pub at : (x : X) (h : Heap) → S.Within 0 h.next h x → IsDeepCopy S x h (copy x h).0 (copy x h).1

  pub Copies-pure : {X : Type 0} → Copies (plain X) pure
  unfolding pure
  Copies-pure = record {
    at = λ x h w. record { grows = omega arith; kept = λ k a lo hi. refl; same = refl; fresh = tt };
  }

  -- A value in use stays so, and stands for the same, while something else is copied.
  module _ {X : Type 0} (S : Shape X) (x : X) (h g : Heap) (grows : h.next ≤ g.next)
      (kept : Same 0 h.next g h) (w : S.Within 0 h.next h x) where
    still_within : S.Within 0 g.next g x
    still_within =
        S.widen 0 h.next 0 g.next g x (omega arith) grows (S.frame_within 0 h.next g h x kept w)

    still_same : S.view g x ≡ S.view h x
    still_same = S.frame_view 0 h.next g h x kept w

  Same-trans :
      (h g e : Heap) → h.next ≤ g.next → Same 0 h.next g h → Same 0 g.next e g → Same 0 h.next e h
  Same-trans h g e le s t k a lo hi = t k a lo (omega arith) ∙ s k a lo hi

  -- A copy stays one while more is copied after it.
  until_later :
      {X : Type 0} (S : Shape X) (x : X) (h : Heap) (y : X) (g e : Heap)
      → IsDeepCopy S x h y g
      → g.next ≤ e.next
      → Same 0 g.next e g
      → IsDeepCopy S x h y e
  until_later S x h y g e c le s =
      let t : Same h.next g.next e g = λ k a lo hi. s k a (omega arith) hi in
      record {
        grows = omega (arith, c.grows);
        kept = Same-trans h g e c.grows c.kept s;
        same = S.frame_view h.next g.next e g y t c.fresh ∙ c.same;
        fresh =
            S.widen h.next g.next h.next e.next e y (omega arith) le
              (S.frame_within h.next g.next e g y t c.fresh);
      }

  -- A copy that starts after other copying is one from before it.
  from_earlier :
      {X : Type 0} (S : Shape X) (x : X) (h g : Heap) (y : X) (e : Heap)
      → h.next ≤ g.next
      → Same 0 h.next g h
      → S.Within 0 h.next h x
      → IsDeepCopy S x g y e
      → IsDeepCopy S x h y e
  from_earlier S x h g y e le s w c = record {
    grows = omega (arith, c.grows);
    kept = Same-trans h g e le s c.kept;
    same = c.same ∙ still_same S x h g le s w;
    fresh = S.widen g.next e.next h.next e.next e y le (omega arith) c.fresh;
  }

  -- Two copies, one after the other.
  unfoldable pub copy_both : {X Y : Type 0} → (X → M X) → (Y → M Y) → Both X Y → M (Both X Y)
  copy_both m n p h = let (x, g) = m p.fst h in let (y, e) = n p.snd g in (x & y, e)

  pub Copies-both :
      {X Y : Type 0} (S : Shape X) (T : Shape Y) (m : X → M X) (n : Y → M Y)
      → Copies S m
      → Copies T n
      → Copies (both S T) (copy_both m n)
  unfolding copy_both
  Copies-both S T m n cm cn = record {
    at = λ p h w.
        let a = cm.at p.fst h w.0 in
        let g = (m p.fst h).1 in
        let e = (n p.snd g).1 in
        let b = cn.at p.snd g (still_within T p.snd h g a.grows a.kept w.1) in
        let a' = until_later S p.fst h (m p.fst h).0 g e a b.grows b.kept in
        let b' = from_earlier T p.snd h g (n p.snd g).0 e a.grows a.kept w.1 b in
        record {
          grows = a'.grows;
          kept = a'.kept;
          same = rw (a'.same, b'.same) refl;
          fresh = (a'.fresh, b'.fresh);
        };
  }

  -- A function on a type that does what another does on the type through which it is seen.
  pub Copies-via :
      {X Y : Type 0} (S : Shape Y) (to : X → Y) (m : X → M X) (n : Y → M Y)
      → Copies S n
      → ((x : X) (h : Heap) → (to (m x h).0 ≡ (n (to x) h).0) × ((m x h).1 ≡ (n (to x) h).1))
      → Copies (via to S) m
  Copies-via S to m n c eq = record {
    at = λ x h w.
        let d = c.at (to x) h w in
        let (p, q) = eq x h in
        record {
          grows = rw q d.grows;
          kept = rw q d.kept;
          same = rw (p, q) d.same;
          fresh = rw (p, q) d.fresh;
        };
  }

  pub Copies-option :
      {X : Type 0} (S : Shape X) (m : X → M X) → Copies S m → Copies (option S) (copy_option m)
  unfolding copy_option pure ◌>>=◌
  Copies-option {X} S m c = record { at = at }
    where
      at :
          (x : Option X) (h : Heap)
          → (option S).Within 0 h.next h x
          → IsDeepCopy (option S) x h (copy_option m x h).0 (copy_option m x h).1
      at none h w = record {
        grows = omega arith;
        kept = λ k a lo hi. refl;
        same = refl;
        fresh = tt;
      }
      at (some x) h w =
          let d = c.at x h w in
          record { grows = d.grows; kept = d.kept; same = ap some d.same; fresh = d.fresh }

  pub Copies-list :
      {X : Type 0} (S : Shape X) (m : X → M X) → Copies S m → Copies (list S) (copy_list m)
  unfolding copy_list pure ◌>>=◌ copy_both
  Copies-list {X} S m c = record { at = at }
    where
      at :
          (x : List X) (h : Heap)
          → (list S).Within 0 h.next h x
          → IsDeepCopy (list S) x h (copy_list m x h).0 (copy_list m x h).1
      at [] h w = record { grows = omega arith; kept = λ k a lo hi. refl; same = refl; fresh = tt }
      at (x ∷ xs) h w =
          let a = c.at x h w.0 in
          let g = (m x h).1 in
          let e = (copy_list m xs g).1 in
          let b = at xs g (still_within (list S) xs h g a.grows a.kept w.1) in
          let a' = until_later S x h (m x h).0 g e a b.grows b.kept in
          let b' = from_earlier (list S) xs h g (copy_list m xs g).0 e a.grows a.kept w.1 b in
          record {
            grows = a'.grows;
            kept = a'.kept;
            same = rw (a'.same, b'.same) refl;
            fresh = (a'.fresh, b'.fresh);
          }

  -- The new cell comes after those of its content.
  filled :
      (k : Sort) (S : Shape (Content k)) (p : Address) (h : Heap) (y : Content k) (g : Heap)
      → IsDeepCopy S (h.cell k p) h y g
      → IsDeepCopy (pointer k S) (some p) h (some (alloc k y g).0) (alloc k y g).1
  filled k S p h y g d =
      let q = (alloc k y g).0 in
      let e = (alloc k y g).1 in
      let (top, at_top) = next-alloc k y g in
      let d' = until_later S (h.cell k p) h y g e d (omega arith) (alloc-Same k y g) in
      let there : e.cell k q ≡ y = load-alloc k y g in
      record {
        grows = d'.grows;
        kept = d'.kept;
        same = ap some (ap (S.view e) there ∙ d'.same);
        fresh = (
          omega (arith, d.grows),
          omega arith,
          subst (S.Within h.next e.next e) (sym there) d'.fresh,
        );
      }

  pub Copies-pointer :
      (k : Sort) (S : Shape (Content k)) (m : Content k → M (Content k))
      → Copies S m
      → Copies (pointer k S) (copy_pointer k m)
  unfolding copy_pointer pure ◌>>=◌ load
  Copies-pointer k S m c = record { at = at }
    where
      at :
          (x : Pointer) (h : Heap)
          → (pointer k S).Within 0 h.next h x
          → IsDeepCopy (pointer k S) x h (copy_pointer k m x h).0 (copy_pointer k m x h).1
      at none h w = record {
        grows = omega arith;
        kept = λ j a lo hi. refl;
        same = refl;
        fresh = tt;
      }
      at (some p) h w =
          filled k S p h (m (h.cell k p) h).0 (m (h.cell k p) h).1 (c.at (h.cell k p) h w.2)
