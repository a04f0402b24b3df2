-- ===== src/Kube/Errors.antt =====
-- Go's `error` values, as far as the program tells them apart.
use zen_lead.Base.{String, Bool, true, false}

-- `wrap` is `fmt.Errorf("...: %w", err)`; texts leave the formatted names out.
pub data Error : Type 0 where
  not_found : Error
  other : String → Error
  wrap : String → Error → Error

-- apierrors.IsNotFound, which looks through wrapped errors.
unfoldable pub is_not_found : Error → Bool
is_not_found not_found = true
is_not_found (other m) = false
is_not_found (wrap m e) = is_not_found e

pub data Result (A : Type 0) : Type 0 where
  ok : A → Result A
  err : Error → Result A

abbrev pub is_ok : {A : Type 0} → Result A → Bool
is_ok (ok a) = true
is_ok (err e) = false
