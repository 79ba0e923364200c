-- ===== src/Server/ClusterStore/Refines.antt =====
-- The store of clusters as a partial function from names to clusters.
use sco.Common.{
  ◌≡◌, refl, ap, fun_ext, arith, ite, List, [], ◌∷◌, Option, none, some, Option-cases, inl, inr,
}
use sco.Common.Text.{Text}
use sco.Common.Result.{ok}
use sco.Common.Dict.{
  text_key, same, lookup, insert, delete, lookup-insert, lookup-delete, IsMap, insert-IsMap,
  delete-IsMap,
}
use sco.Server.Cluster.{Cluster}
use sco.Server.ClusterStore.{
  Error, cluster_not_found, cluster_already_exists, Store, new, get, add, update, remove,
}

-- The calls that change the store.
pub data Call (F : Type 0) : Type 0 where
  call_add : Cluster F → Call F
  call_update : Cluster F → Call F
  call_remove : Text → Call F

module _ {F : Type 0} where
  abbrev pub run : Call F → Store F → Store F × Option Error
  run (call_add cl) s = add cl s
  run (call_update cl) s = update cl s
  run (call_remove name) s = remove name s

  -- What the store holds, by name.
  abbrev pub view : Store F → Text → Option (Cluster F)
  view s name = lookup name s.clusters

  -- A partial function changed at one name.
  abbrev pub put :
      Text → Option (Cluster F) → (Text → Option (Cluster F)) → Text → Option (Cluster F)
  put name v f j = ite (same name j) v (f j)

  -- What a call promises: it changes the cluster of one name, or reports why not.
  abbrev pub promised :
      Call F → (Text → Option (Cluster F)) → (Text → Option (Cluster F)) × Option Error
  promised (call_add cl) f = elim (f cl.name) [
    | some old ↦ (f, some (cluster_already_exists cl.name))
    | none ↦ (put cl.name (some cl) f, none)
  ]
  promised (call_update cl) f = elim (f cl.name) [
    | none ↦ (f, some (cluster_not_found cl.name))
    | some old ↦ (put cl.name (some cl) f, none)
  ]
  promised (call_remove name) f = elim (f name) [
    | none ↦ (f, some (cluster_not_found name))
    | some old ↦ (put name none f, none)
  ]

  -- Each call that changes the store does to the partial function what it promises, and returns the
  -- promised error, if any.
  pub run-refines :
      (c : Call F) (s : Store F) → (view (run c s).0, (run c s).1) ≡ promised c (view s)
  unfolding add update remove
  run-refines (call_add cl) s = elim (Option-cases (lookup cl.name s.clusters)) [
    | inl e ↦
        rw (e, add, promised)
          (ap (λ f. (f, none)) (fun_ext (λ j. lookup-insert cl.name j cl s.clusters)))
    | inr (old, e) ↦ rw (e, add, promised) refl
  ]
  run-refines (call_update cl) s = elim (Option-cases (lookup cl.name s.clusters)) [
    | inl e ↦ rw (e, update, promised) refl
    | inr (old, e) ↦
        rw (e, update, promised)
          (ap (λ f. (f, none)) (fun_ext (λ j. lookup-insert cl.name j cl s.clusters)))
  ]
  run-refines (call_remove name) s = elim (Option-cases (lookup name s.clusters)) [
    | inl e ↦ rw (e, remove, promised) refl
    | inr (old, e) ↦
        rw (e, remove, promised)
          (ap (λ f. (f, none)) (fun_ext (λ j. lookup-delete name j s.clusters)))
  ]

  -- The store after calls, the last one first.
  abbrev pub run_all : List (Call F) → Store F
  run_all [] = new
  run_all (c ∷ earlier) = (run c (run_all earlier)).0

  -- No name stands twice, and a cluster stands under its own name.
  abbrev pub IsWellFormed : Store F → Type 0
  IsWellFormed s =
      IsMap s.clusters × ((name : Text) (cl : Cluster F) → get name s ≡ ok cl → cl.name ≡ name)

  get-eq-ok :
      (name : Text) (cl : Cluster F) (s : Store F)
      → get name s ≡ ok cl
      → lookup name s.clusters ≡ some cl
  unfolding get
  get-eq-ok name cl s h = ground arith

  get_of_lookup :
      (name : Text) (cl : Cluster F) (s : Store F)
      → lookup name s.clusters ≡ some cl
      → get name s ≡ ok cl
  unfolding get
  get_of_lookup name cl s h = ground arith

  insert-IsWellFormed :
      (cl : Cluster F) (s : Store F)
      → IsWellFormed s
      → IsWellFormed (record { clusters = insert cl.name cl s.clusters })
  insert-IsWellFormed cl s h = (
    insert-IsMap cl.name cl s.clusters h.0,
    λ name c g. ground (
      arith,
      get-eq-ok name c (record { clusters = insert cl.name cl s.clusters }) g,
      lookup-insert cl.name name cl s.clusters,
      get_of_lookup name c s,
      h.1 name c,
    ),
  )

  delete-IsWellFormed :
      (j : Text) (s : Store F)
      → IsWellFormed s
      → IsWellFormed (record { clusters = delete j s.clusters })
  delete-IsWellFormed j s h = (
    delete-IsMap j s.clusters h.0,
    λ name c g. ground (
      arith,
      get-eq-ok name c (record { clusters = delete j s.clusters }) g,
      lookup-delete j name s.clusters,
      get_of_lookup name c s,
      h.1 name c,
    ),
  )

  run-IsWellFormed : (c : Call F) (s : Store F) → IsWellFormed s → IsWellFormed (run c s).0
  unfolding add update remove
  run-IsWellFormed (call_add cl) s h = ground (arith, insert-IsWellFormed cl s)
  run-IsWellFormed (call_update cl) s h = ground (arith, insert-IsWellFormed cl s)
  run-IsWellFormed (call_remove name) s h = ground (arith, delete-IsWellFormed name s)

  -- After any calls on a new store, no name stands twice and every cluster stands under its own name.
  pub run_all-IsWellFormed : (calls : List (Call F)) → IsWellFormed (run_all calls)
  unfolding new get lookup
  run_all-IsWellFormed [] = (tt, λ name c g. cc)
  run_all-IsWellFormed (c ∷ earlier) =
      run-IsWellFormed c (run_all earlier) (run_all-IsWellFormed earlier)
