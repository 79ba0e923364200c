-- ===== src/Server/NodeStore.antt =====
-- server/internal/node/model.go and server/internal/node/nodestore/nodestore.go. A node is a value
-- here, a pointer in the code; `Conn` is the type of its connection.
pub mod Lookup
use sco.Common.{List, [], ◌∷◌, ◌++◌, Option, none, some, ite}
use sco.Common.Text.{Text}
use sco.Common.Int.{ℤ}
use sco.Common.Dict.{text_key, same}

pub record Node (F Conn : Type 0) : Type 0 where
  pub id : Text
  pub host : Text
  pub max_cpu : F
  pub used_cpu : F
  pub max_memory : ℤ
  pub used_memory : ℤ
  pub conn : Option Conn

pub record Store (F Conn : Type 0) : Type 0 where
  pub nodes : List (Node F Conn)

module _ {F Conn : Type 0} where
  pub new : Store F Conn
  new = record { nodes = [] }

  -- The loop of Get.
  pub first : Text → List (Node F Conn) → Option (Node F Conn)
  first id [] = none
  first id (n ∷ ns) = ite (same n.id id) (some n) (first id ns)

  -- The error is nil always, and the node is nil where there is none.
  pub get : Text → Store F Conn → Option (Node F Conn)
  get id s = first id s.nodes

  pub list : Store F Conn → List (Node F Conn)
  list s = s.nodes

  pub add : Node F Conn → Store F Conn → Store F Conn
  add n s = record { nodes = s.nodes ++ (n ∷ []) }

  -- The loop of Remove: append(nodes[:i], nodes[i+1:]...) at the first match.
  pub without_first : Text → List (Node F Conn) → List (Node F Conn)
  without_first id [] = []
  without_first id (n ∷ ns) = ite (same n.id id) ns (n ∷ without_first id ns)

  pub remove : Text → Store F Conn → Store F Conn
  remove id s = record { nodes = without_first id s.nodes }

  pub update : Node F Conn → Store F Conn → Store F Conn
  update n s = add n (remove n.id s)
