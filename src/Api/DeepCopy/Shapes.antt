-- ===== src/Api/DeepCopy/Shapes.antt =====
-- What a value with pointers stands for in a heap, and between which addresses its cells lie.
use mathlib.Core.Path.{subst}
use zen_lead.Base.{◌≤◌, ◌<◌, ◌≡◌, refl, sym, ap, ◌∙◌, Option, none, some, List, [], ◌∷◌, arith}
use zen_lead.Api.Memory.{Foreign, Sort, Address, Pointer, Content, Heap, Same}

module _ ⦃f : Foreign⦄ where
  -- `frame`: a value depends on its cells only. `widen`: a range may grow.
  pub record Shape (X : Type 0) : Type 1 where
    pub Value : Type 0
    pub view : Heap → X → Value
    pub Within : Address → Address → Heap → X → Type 0
    pub frame_view :
        (lo hi : Address) (g h : Heap) (x : X)
        → Same lo hi g h
        → Within lo hi h x
        → view g x ≡ view h x
    pub frame_within :
        (lo hi : Address) (g h : Heap) (x : X)
        → Same lo hi g h
        → Within lo hi h x
        → Within lo hi g x
    pub widen :
        (lo hi low high : Address) (h : Heap) (x : X)
        → low ≤ lo
        → hi ≤ high
        → Within lo hi h x
        → Within low high h x

  -- A type with no pointers.
  abbrev pub plain : (X : Type 0) → Shape X
  plain X = record {
    Value = X;
    view = λ h x. x;
    Within = λ lo hi h x. Unit;
    frame_view = λ lo hi g h x s w. refl;
    frame_within = λ lo hi g h x s w. w;
    widen = λ lo hi low high h x a b w. w;
  }

  -- A type that is seen through another.
  abbrev pub via : {X Y : Type 0} → (X → Y) → Shape Y → Shape X
  via to S = record {
    Value = S.Value;
    view = λ h x. S.view h (to x);
    Within = λ lo hi h x. S.Within lo hi h (to x);
    frame_view = λ lo hi g h x. S.frame_view lo hi g h (to x);
    frame_within = λ lo hi g h x. S.frame_within lo hi g h (to x);
    widen = λ lo hi low high h x. S.widen lo hi low high h (to x);
  }

pub record Both (X Y : Type 0) : Type 0 where
  pub fst : X
  pub snd : Y

infixr 20 ◌&◌
abbrev pub ◌&◌ : {X Y : Type 0} → X → Y → Both X Y
x & y = record { fst = x; snd = y }

module _ ⦃f : Foreign⦄ {X Y : Type 0} (S : Shape X) (T : Shape Y) where
  pub both_view :
      (g h : Heap) (p : Both X Y)
      → S.view g p.fst ≡ S.view h p.fst
      → T.view g p.snd ≡ T.view h p.snd
      → ◌≡◌ {A = Both S.Value T.Value}
          (S.view g p.fst & T.view g p.snd)
          (S.view h p.fst & T.view h p.snd)
  both_view g h p a b = rw (a, b) refl

  abbrev pub both : Shape (Both X Y)
  both = record {
    Value = Both S.Value T.Value;
    view = λ h p. S.view h p.fst & T.view h p.snd;
    Within = λ lo hi h p. S.Within lo hi h p.fst × T.Within lo hi h p.snd;
    frame_view = λ lo hi g h p s w.
        both_view g h p (S.frame_view lo hi g h p.fst s w.0) (T.frame_view lo hi g h p.snd s w.1);
    frame_within = λ lo hi g h p s w.
        (S.frame_within lo hi g h p.fst s w.0, T.frame_within lo hi g h p.snd s w.1);
    widen = λ lo hi low high h p a b w.
        (S.widen lo hi low high h p.fst a b w.0, T.widen lo hi low high h p.snd a b w.1);
  }

module _ ⦃f : Foreign⦄ {X : Type 0} (S : Shape X) where
  abbrev pub option_view : Heap → Option X → Option S.Value
  option_view h none = none
  option_view h (some x) = some (S.view h x)

  abbrev pub OptionWithin : Address → Address → Heap → Option X → Type 0
  OptionWithin lo hi h none = Unit
  OptionWithin lo hi h (some x) = S.Within lo hi h x

  pub option_frame_view :
      (lo hi : Address) (g h : Heap) (x : Option X)
      → Same lo hi g h
      → OptionWithin lo hi h x
      → option_view g x ≡ option_view h x
  option_frame_view lo hi g h none s w = refl
  option_frame_view lo hi g h (some x) s w = ap some (S.frame_view lo hi g h x s w)

  pub option_frame_within :
      (lo hi : Address) (g h : Heap) (x : Option X)
      → Same lo hi g h
      → OptionWithin lo hi h x
      → OptionWithin lo hi g x
  option_frame_within lo hi g h none s w = tt
  option_frame_within lo hi g h (some x) s w = S.frame_within lo hi g h x s w

  pub option_widen :
      (lo hi low high : Address) (h : Heap) (x : Option X)
      → low ≤ lo
      → hi ≤ high
      → OptionWithin lo hi h x
      → OptionWithin low high h x
  option_widen lo hi low high h none a b w = tt
  option_widen lo hi low high h (some x) a b w = S.widen lo hi low high h x a b w

  abbrev pub option : Shape (Option X)
  option = record {
    Value = Option S.Value;
    view = option_view;
    Within = OptionWithin;
    frame_view = option_frame_view;
    frame_within = option_frame_within;
    widen = option_widen;
  }

  abbrev pub list_view : Heap → List X → List S.Value
  list_view h [] = []
  list_view h (x ∷ xs) = S.view h x ∷ list_view h xs

  abbrev pub ListWithin : Address → Address → Heap → List X → Type 0
  ListWithin lo hi h [] = Unit
  ListWithin lo hi h (x ∷ xs) = S.Within lo hi h x × ListWithin lo hi h xs

  pub list_frame_view :
      (lo hi : Address) (g h : Heap) (x : List X)
      → Same lo hi g h
      → ListWithin lo hi h x
      → list_view g x ≡ list_view h x
  list_frame_view lo hi g h [] s w = refl
  list_frame_view lo hi g h (x ∷ xs) s w =
      rw (S.frame_view lo hi g h x s w.0, list_frame_view lo hi g h xs s w.1) refl

  pub list_frame_within :
      (lo hi : Address) (g h : Heap) (x : List X)
      → Same lo hi g h
      → ListWithin lo hi h x
      → ListWithin lo hi g x
  list_frame_within lo hi g h [] s w = tt
  list_frame_within lo hi g h (x ∷ xs) s w =
      (S.frame_within lo hi g h x s w.0, list_frame_within lo hi g h xs s w.1)

  pub list_widen :
      (lo hi low high : Address) (h : Heap) (x : List X)
      → low ≤ lo
      → hi ≤ high
      → ListWithin lo hi h x
      → ListWithin low high h x
  list_widen lo hi low high h [] a b w = tt
  list_widen lo hi low high h (x ∷ xs) a b w =
      (S.widen lo hi low high h x a b w.0, list_widen lo hi low high h xs a b w.1)

  abbrev pub list : Shape (List X)
  list = record {
    Value = List S.Value;
    view = list_view;
    Within = ListWithin;
    frame_view = list_frame_view;
    frame_within = list_frame_within;
    widen = list_widen;
  }

-- A pointer to a cell: the value of its content, and the addresses of the cell and of its content.
module _ ⦃f : Foreign⦄ (k : Sort) (S : Shape (Content k)) where
  abbrev pub pointer_view : Heap → Pointer → Option S.Value
  pointer_view h none = none
  pointer_view h (some p) = some (S.view h (h.cell k p))

  abbrev pub PointerWithin : Address → Address → Heap → Pointer → Type 0
  PointerWithin lo hi h none = Unit
  PointerWithin lo hi h (some p) = (lo ≤ p) × (p < hi) × S.Within lo hi h (h.cell k p)

  pub pointer_frame_view :
      (lo hi : Address) (g h : Heap) (x : Pointer)
      → Same lo hi g h
      → PointerWithin lo hi h x
      → pointer_view g x ≡ pointer_view h x
  pointer_frame_view lo hi g h none s w = refl
  pointer_frame_view lo hi g h (some p) s w =
      ap some (ap (S.view g) (s k p w.0 w.1) ∙ S.frame_view lo hi g h (h.cell k p) s w.2)

  pub pointer_frame_within :
      (lo hi : Address) (g h : Heap) (x : Pointer)
      → Same lo hi g h
      → PointerWithin lo hi h x
      → PointerWithin lo hi g x
  pointer_frame_within lo hi g h none s w = tt
  pointer_frame_within lo hi g h (some p) s w = (
    w.0,
    w.1,
    subst (S.Within lo hi g) (sym (s k p w.0 w.1)) (S.frame_within lo hi g h (h.cell k p) s w.2),
  )

  pub pointer_widen :
      (lo hi low high : Address) (h : Heap) (x : Pointer)
      → low ≤ lo
      → hi ≤ high
      → PointerWithin lo hi h x
      → PointerWithin low high h x
  pointer_widen lo hi low high h none a b w = tt
  pointer_widen lo hi low high h (some p) a b w =
      (omega arith, omega arith, S.widen lo hi low high h (h.cell k p) a b w.2)

  abbrev pub pointer : Shape Pointer
  pointer = record {
    Value = Option S.Value;
    view = pointer_view;
    Within = PointerWithin;
    frame_view = pointer_frame_view;
    frame_within = pointer_frame_within;
    widen = pointer_widen;
  }
