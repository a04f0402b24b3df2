-- ===== src/Tests/Answers.antt =====
-- A server that always answers, and a Reconcile with it.
use zen_lead.Base.{true, str_eq, Bool, false, [], ◌∷◌}
use zen_lead.Base.Int.{pos}
use zen_lead.Kube.Objects.{Service, number}
use zen_lead.Kube.Errors.{Result, ok, err, not_found}
use zen_lead.Director.Reconciler.{Reconciler}
use zen_lead.Tests.Cluster.{http_port, web, tester}

abbrev numbered : Service
numbered = record web { ports = record http_port { target_port = number (pos 8080) } ∷ [] }

-- Only the service is there.
abbrev only_web : Bool → Result Service
only_web true = ok numbered
only_web false = err not_found

abbrev answering : Reconciler
answering = record tester {
  client = record tester.client {
    get_service = λ cs k. only_web (str_eq k.name "web");
    get_slice = λ cs k. err not_found;
  };
}
