-- ===== src/Director/Reconcile/Returns.antt =====
-- Reconcile returns without an error while the server answers.
use zen_lead.Base.{◌≡◌, true, false, String, List, [], ◌∷◌, All}
use zen_lead.Base.Int.{ℤ, is_pos}
use zen_lead.Base.Dict.{Dict}
use zen_lead.Kube.Objects.{Key, Service, ServicePort, number, EndpointSlice}
use zen_lead.Kube.Errors.{Result}
use zen_lead.Director.Reconciler.{Calls, Reconciler, M, ◌>>◌}
use zen_lead.Director.Succeeds.{Good, IsOk, IsAnswer, IsPatient, Always}
use zen_lead.Director.EndpointSlices.{no_ports}

-- A port whose target is a number, not the name of a container port.
abbrev HasNumber : ServicePort → Type 0
HasNumber p = (n : ℤ) × (p.target_port ≡ number n)

-- A service with ports, one at least, each with a number for its target.
abbrev pub HasNumbers : Service → Type 0
HasNumbers svc = (no_ports svc.ports ≡ false) × All HasNumber svc.ports

-- The API refuses a service without ports that is not headless; nothing is said of one here.
abbrev pub AcceptsPorts : List ServicePort → Result (Unit {0}) → Type 0
AcceptsPorts [] answer = Unit
AcceptsPorts (p ∷ ps) answer = IsOk answer

-- The server answers: it reads an object or says that it is not there, lists pods, and accepts
-- writes, those of services if they have ports. The services that it reads have ports with
-- numbers. Nothing is asked of reads of a pod, of other lists, and of the deletion of a slice.
pub record Answering (r : Reconciler) : Type 0 where
  pub get_service : (cs : Calls) (k : Key) → Good HasNumbers (Unit {0}) (r.client.get_service cs k)
  pub get_slice : (cs : Calls) (k : Key) → IsAnswer (r.client.get_slice cs k)
  pub list_pods : (cs : Calls) (ns : String) (l : Dict String) → IsOk (r.client.list_pods cs ns l)
  pub create_service :
      (cs : Calls) (x : Service) → AcceptsPorts x.ports (r.client.create_service cs x)
  pub patch_service :
      (cs : Calls) (x y : Service) → AcceptsPorts y.ports (r.client.patch_service cs x y)
  pub delete_service : (cs : Calls) (x : Service) → IsOk (r.client.delete_service cs x)
  pub create_slice : (cs : Calls) (x : EndpointSlice) → IsOk (r.client.create_slice cs x)
  pub patch_slice : (cs : Calls) (x y : EndpointSlice) → IsOk (r.client.patch_slice cs x y)
  pub attempts : is_pos r.libraries.default_retry.max_attempts ≡ true
  pub fast_attempts : is_pos r.fast_retry_config.max_attempts ≡ true

module _ ⦃r : Reconciler⦄ (patient : IsPatient r) (server : Answering r) where
  abbrev Returns : M (Result (Unit {0})) → Type 0
  Returns m = Always IsOk m
