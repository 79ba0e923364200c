-- ===== src/Server/ClusterStore.antt =====
-- server/internal/cluster/clusterstore/clusterstore.go. The mutex makes each operation one step;
-- a cluster is a value here, a pointer in the code.
pub mod Refines
use sco.Common.{List, [], ◌∷◌, map, Option, none, some}
use sco.Common.Text.{Text}
use sco.Common.Result.{Result, ok, err}
use sco.Common.Dict.{text_key, lookup, insert, delete}
use sco.Server.Cluster.{Cluster}

pub data Error : Type 0 where
  cluster_not_found : Text → Error
  cluster_already_exists : Text → Error

pub record Store (F : Type 0) : Type 0 where
  pub clusters : List (Text × Cluster F)

module _ {F : Type 0} where
  pub new : Store F
  new = record { clusters = [] }

  pub get : Text → Store F → Result Error (Cluster F)
  get name s = elim (lookup name s.clusters) [
    | none ↦ err (cluster_not_found name)
    | some cl ↦ ok cl
  ]

  -- The order is that of the map.
  pub list : Store F → List (Cluster F)
  list s = map (λ p. p.1) s.clusters

  pub add : Cluster F → Store F → Store F × Option Error
  add cl s = elim (lookup cl.name s.clusters) [
    | some old ↦ (s, some (cluster_already_exists cl.name))
    | none ↦ (record { clusters = insert cl.name cl s.clusters }, none)
  ]

  pub update : Cluster F → Store F → Store F × Option Error
  update cl s = elim (lookup cl.name s.clusters) [
    | none ↦ (s, some (cluster_not_found cl.name))
    | some old ↦ (record { clusters = insert cl.name cl s.clusters }, none)
  ]

  pub remove : Text → Store F → Store F × Option Error
  remove name s = elim (lookup name s.clusters) [
    | none ↦ (s, some (cluster_not_found name))
    | some old ↦ (record { clusters = delete name s.clusters }, none)
  ]
