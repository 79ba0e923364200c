-- ===== src/Server/NodeStore/Lookup.antt =====
-- What Get finds after the operations of the store of nodes.
use sco.Common.{
  ◌≡◌, ◌≢◌, refl, sym, subst, if_pos, if_neg, arith, ite, List, [], ◌∷◌, ◌++◌, none, some, All,
  All-append,
}
use sco.Common.Text.{Text}
use sco.Common.Dict.{text_key, same}
use sco.Server.NodeStore.{Node, Store, first, get, add, without_first, remove, update}

module _ {F Conn : Type 0} where
  abbrev Fresh : Text → List (Node F Conn) → Type 0
  Fresh id = All (λ n. n.id ≢ id)

  abbrev Distinct : List (Node F Conn) → Type 0
  Distinct [] = Unit
  Distinct (n ∷ ns) = Fresh n.id ns × Distinct ns

  -- No identifier stands twice.
  abbrev pub IsDistinct : Store F Conn → Type 0
  IsDistinct s = Distinct s.nodes

  first-append :
      (id : Text) (n : Node F Conn) (ns : List (Node F Conn))
      → first id (ns ++ (n ∷ []))
        ≡ elim (first id ns) [ some m ↦ some m | none ↦ ite (same n.id id) (some n) none ]
  unfolding first
  first-append id n [] = ground arith
  first-append id n (m ∷ ns) = ground (arith, first-append id n ns)

  first-Fresh : (id : Text) (ns : List (Node F Conn)) → Fresh id ns → first id ns ≡ none
  unfolding first
  first-Fresh id [] h = refl
  first-Fresh id (m ∷ ns) h = ground (arith, first-Fresh id ns)

  first-without_first :
      (id j : Text) (ns : List (Node F Conn))
      → Distinct ns
      → first j (without_first id ns) ≡ ite (same id j) none (first j ns)
  unfolding first without_first
  first-without_first id j [] h = ground arith
  first-without_first id j (m ∷ ns) h =
      ground (arith, first-without_first id j ns h.1, first-Fresh m.id ns h.0)

  Fresh-without_first :
      (j id : Text) (ns : List (Node F Conn)) → Fresh j ns → Fresh j (without_first id ns)
  unfolding without_first
  Fresh-without_first j id [] h = tt
  Fresh-without_first j id (m ∷ ns) h = ground (arith, Fresh-without_first j id ns)

  without_first-Fresh :
      (id : Text) (ns : List (Node F Conn)) → Distinct ns → Fresh id (without_first id ns)
  unfolding without_first
  without_first-Fresh id [] h = tt
  without_first-Fresh id (m ∷ ns) h = elim (same m.id id) [
    | yes p ↦ rw (if_pos _ p) (subst (λ i. Fresh i ns) p h.0)
    | no p ↦ rw (if_neg _ p) (p, without_first-Fresh id ns h.1)
  ]

  without_first-Distinct :
      (id : Text) (ns : List (Node F Conn)) → Distinct ns → Distinct (without_first id ns)
  unfolding without_first
  without_first-Distinct id [] h = tt
  without_first-Distinct id (m ∷ ns) h =
      ground (arith, Fresh-without_first m.id id ns, without_first-Distinct id ns)

  append-Distinct :
      (n : Node F Conn) (ns : List (Node F Conn))
      → Fresh n.id ns
      → Distinct ns
      → Distinct (ns ++ (n ∷ []))
  append-Distinct n [] f h = (tt, tt)
  append-Distinct n (m ∷ ns) f h = (
    All-append (λ k. k.id ≢ m.id) ns (n ∷ []) h.0 ((λ e. f.0 (sym e)), tt),
    append-Distinct n ns f.1 h.1,
  )

  -- In a store without a repeated identifier: after Remove nothing is found under the identifier,
  -- after Update the new node is; what is found under any other identifier stays; and no identifier
  -- is repeated after either.
  pub get-update :
      (s : Store F Conn) (n : Node F Conn) (j : Text)
      → IsDistinct s
      → (get j (remove n.id s) ≡ ite (same n.id j) none (get j s))
        × (get j (update n s) ≡ ite (same n.id j) (some n) (get j s))
        × IsDistinct (remove n.id s)
        × IsDistinct (update n s)
  unfolding get add remove update
  get-update s n j h =
      let removed = first-without_first n.id j s.nodes h in
      let distinct = without_first-Distinct n.id s.nodes h in
      let added = first-append j n (without_first n.id s.nodes) in
      (
        removed,
        ground (arith, removed, added),
        distinct,
        append-Distinct n (without_first n.id s.nodes) (without_first-Fresh n.id s.nodes h)
            distinct,
      )

  -- Add appends: under an identifier that is there already, Get finds the old node still.
  pub get-add :
      (s : Store F Conn) (n : Node F Conn) (j : Text)
      → get j (add n s)
        ≡ elim (get j s) [ some m ↦ some m | none ↦ ite (same n.id j) (some n) none ]
  unfolding get add
  get-add s n j = first-append j n s.nodes
