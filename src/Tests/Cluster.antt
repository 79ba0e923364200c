-- ===== src/Tests/Cluster.antt =====
-- The server's stores and the choice of an endpoint.
use sco.Common.{
  ℕ, ◌+◌, ◌%◌, ◌≡◌, refl, ite, List, [], ◌∷◌, ◌++◌, map, Option, none, some, length, take, drop,
  arith, if◌then◌else◌,
}
use sco.Common.Run.{done, panic}
use sco.Common.Text.{Text, codes}
use sco.Common.Int.{pos}
use sco.Common.Dict.{text_key, lookup}
use sco.Server.Cluster.{Endpoint, Service, Cluster}
use sco.Server.Cluster.RoundRobin.{picks, picks-round}
use sco.Server.ClusterStore
use sco.Server.ClusterStore.Refines.{
  call_add, call_remove, call_update, run, view, promised, run-refines, run_all, IsWellFormed,
  run_all-IsWellFormed,
}
use sco.Server.NodeStore

abbrev endpoint : ℕ → Endpoint
endpoint n = record { node_id = n ∷ []; host = codes "10.0.0.1"; port = codes "8080" }

abbrev endpoints : List Endpoint
endpoints = endpoint 1 ∷ endpoint 2 ∷ endpoint 3 ∷ []

abbrev pub service : Service ℕ
service = record {
  type = codes "tcp";
  name = codes "web";
  image = codes "nginx";
  command = [];
  environment_variables = [];
  ports = [];
  volumes = [];
  max_cpu = 1;
  max_memory = pos 512;
  replicas = pos 3;
  load_balance_strategy = codes "round_robin";
  endpoints = (codes "80", endpoints) ∷ [];
  round_robin_counter = pos 4;
}

picks-round_example :
    picks (codes "80") (9 ∷ 9 ∷ 9 ∷ []) service
    ≡ done (
      map some (endpoint 2 ∷ endpoint 3 ∷ []) ++ map some (endpoint 1 ∷ []),
      record service { round_robin_counter = pos 7 },
    )
unfolding lookup sco.Common.Text.Text-discrete
picks-round_example =
    picks-round (codes "80") (9 ∷ 9 ∷ 9 ∷ []) service endpoints 4 refl (omega arith) refl refl refl
      (omega arith)

-- Behind the greatest int comes the least, for which PickEndpoint panics here.
abbrev worn : Service ℕ
worn = record service { round_robin_counter = pos 9223372036854775807 }

picks_overflow : picks (codes "80") (9 ∷ 9 ∷ []) worn ≡ panic
unfolding lookup sco.Common.Text.Text-discrete sco.Server.Cluster.pick_endpoint
    sco.Server.Cluster.pick_from
picks_overflow = refl

abbrev blue : Cluster ℕ
blue = record { name = codes "blue"; services = service ∷ [] }

abbrev held : ClusterStore.Store ℕ
held = record { clusters = (codes "blue", blue) ∷ [] }

run-refines_example :
    (view (run (call_remove (codes "blue")) held).0, (run (call_remove (codes "blue")) held).1)
    ≡ promised (call_remove (codes "blue")) (view held)
run-refines_example = run-refines (call_remove (codes "blue")) held

run_all-IsWellFormed_example : IsWellFormed (run_all (call_update blue ∷ call_add blue ∷ []))
run_all-IsWellFormed_example = run_all-IsWellFormed (call_update blue ∷ call_add blue ∷ [])

abbrev node : ℕ → NodeStore.Node ℕ ℕ
node n = record {
  id = n ∷ [];
  host = codes "10.0.0.1";
  max_cpu = 4;
  used_cpu = 0;
  max_memory = pos 100;
  used_memory = pos 0;
  conn = none;
}

abbrev nodes : NodeStore.Store ℕ ℕ
nodes = record { nodes = node 1 ∷ node 2 ∷ [] }
