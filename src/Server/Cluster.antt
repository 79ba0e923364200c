-- ===== src/Server/Cluster.antt =====
-- server/internal/cluster: services, their endpoints and the choice of one (model.go, endpoint.go).
pub mod RoundRobin
use sco.Common.{ℕ, ◌+◌, ◌%◌, List, [], ◌∷◌, ◌++◌, Option, none, some, length, ite}
use sco.Common.Run.{Run, done, panic, index, ◌>>=◌}
use sco.Common.Text.{Text, codes}
use sco.Common.Int.{ℤ, pos, negsuc, plus, wrap64, remainder}
use sco.Common.Dict.{text_key, same, lookup}

pub record Endpoint : Type 0 where
  pub node_id : Text
  pub host : Text
  pub port : Text

pub address : Endpoint → Text
address e = e.host ++ (codes ":" ++ e.port)

abbrev pub load_balance_strategy_random : Text
load_balance_strategy_random = codes "random"

abbrev pub load_balance_strategy_round_robin : Text
load_balance_strategy_round_robin = codes "round_robin"

pub record Service (F : Type 0) : Type 0 where
  pub type : Text
  pub name : Text
  pub image : Text
  pub command : List Text
  pub environment_variables : List Text
  pub ports : List (Text × Text)
  pub volumes : List Text
  pub max_cpu : F
  pub max_memory : ℤ
  pub replicas : ℤ
  pub load_balance_strategy : Text
  pub endpoints : List (Text × List Endpoint)
  pub round_robin_counter : ℤ  -- int, here of 64 bits

pub record Cluster (F : Type 0) : Type 0 where
  pub name : Text
  pub services : List (Service F)

-- xs[i] for an int
abbrev pub index_at : {A : Type 0} → List A → ℤ → Run A
index_at xs (pos i) = index xs i
index_at xs (negsuc i) = panic

module _ {F : Type 0} where
  -- PickEndpoint where the port has endpoints. Without an endpoint `% len(endpoints)` divides by
  -- zero: here the index is out of range.
  unfoldable pub pick_from : ℕ → List Endpoint → Service F → Run (Option Endpoint × Service F)
  pick_from random es s =
      ite (same s.load_balance_strategy load_balance_strategy_random)
        (do e ← index es (random % length es); done (some e, s))
        (ite (same s.load_balance_strategy load_balance_strategy_round_robin)
          (do
            e ← index_at es (remainder s.round_robin_counter (length es))
            done (
              some e,
              record s { round_robin_counter = wrap64 (plus s.round_robin_counter (pos 1)) },
            ))
          (done (none, s)))

  -- `random` is what rand.Int returns; the first result is nil where no endpoint is found.
  unfoldable pub pick_endpoint : ℕ → Text → Service F → Run (Option Endpoint × Service F)
  pick_endpoint random port s = elim (lookup port s.endpoints) [
    | none ↦ done (none, s)
    | some es ↦ pick_from random es s
  ]
