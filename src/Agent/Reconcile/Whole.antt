-- ===== src/Agent/Reconcile/Whole.antt =====
-- A whole reconciliation: what runs and what is gone when it is over.
use sco.Common.{
  ◌≡◌, ◌≢◌, refl, ap, subst, ◌∙◌, Bool, false, List, [], ◌∷◌, ◌++◌, Option, none, some, All,
  Bool-cases, inl, inr, arith,
}
use sco.Common.Result.{ok}
use sco.Common.Text.{Text}
use sco.Common.Dict.{text_key, same, lookup, IsMap, Absent}
use sco.Agent.Exec.{bind_ok}
use sco.Agent.Runtime.{TaskConfig, Status, running, Runtime}
use sco.Agent.Reconcile.Laws.{Laws, Task}
use sco.Agent.Reconcile.Converges.{stop_and_remove-frame}
use sco.Agent.Reconcile.Loops.{reconcile_tasks-frame}
use sco.Agent.Reconcile.{found, stop_and_remove, stop_unlisted, reconcile_tasks, reconcile}

-- A name that is not found in the task list is the name of no task in it.
found-All :
    {F : Type 0} (n : Text) (tasks : List (TaskConfig F))
    → found n tasks ≡ false
    → All (λ t. t.name ≢ n) tasks
unfolding found
found-All n [] h = tt
found-All n (t ∷ tasks) h = elim (same t.name n) [
  | yes p ↦ absurd (ground arith)
  | no p ↦ (p, found-All n tasks (ground arith))
]

-- An entry of a map, with what stands before and behind it.
split_at :
    (n : Text) (listed : List (Text × Status))
    → lookup n listed ≢ none
    → IsMap listed
    → (front : List (Text × Status)) × (s : Status) × (back : List (Text × Status)) × (listed
        ≡ front ++ (n, s) ∷ back)
      × Absent n back
unfolding lookup
split_at n [] h m = absurd (h refl)
split_at n ((k, s) ∷ listed) h m = elim (same k n) [
  | yes p ↦ ([], s, listed, ap (λ x. (x, s) ∷ listed) p, subst (λ x. Absent x listed) p m.0)
  | no p ↦
      let (front, r, back, e, rest) = split_at n listed (λ q. h (ground arith)) m.1 in
      ((k, s) ∷ front, r, back, ap (λ x. (k, s) ∷ x) e, rest)
]

module _ {F W : Type 0} (float_eq : F → F → Bool) (rt : Runtime F W) where
  -- A reconciliation that returned has gone through its task list.
  pub reconcile_ok :
      (tasks : List (TaskConfig F)) (w : W)
      → (reconcile float_eq rt (ok tasks) w).0 ≡ ok tt
      → (v : W) × ((reconcile float_eq rt (ok tasks) w).1 ≡ reconcile_tasks float_eq rt tasks v)
  unfolding reconcile
  reconcile_ok tasks w h =
      let (listed, _, _, whole) =
        bind_ok (rt.list_tasks w)
          (λ l v. (ok tt, reconcile_tasks float_eq rt tasks (stop_unlisted float_eq rt tasks l v)))
          tt h in
      (_, ap (λ r. r.1) whole)

module _ {F W : Type 0} {current : W → Text → Text → Bool} {Kept : TaskConfig F → Type 0}
    (float_eq : F → F → Bool) (rt : Runtime F W) (view : W → Text → Option (Task F))
    (laws : Laws float_eq rt view current Kept) where
  stop_unlisted-append :
      (tasks : List (TaskConfig F)) (front back : List (Text × Status)) (w : W)
      → stop_unlisted float_eq rt tasks (front ++ back) w
        ≡ stop_unlisted float_eq rt tasks back (stop_unlisted float_eq rt tasks front w)
  unfolding stop_unlisted
  stop_unlisted-append tasks [] back w = refl
  stop_unlisted-append tasks ((n, s) ∷ front) back w = stop_unlisted-append tasks front back _

  stop_unlisted-frame :
      (tasks : List (TaskConfig F)) (reported : List (Text × Status)) (m : Text) (w : W)
      → Absent m reported
      → view (stop_unlisted float_eq rt tasks reported w) m ≡ view w m
  unfolding stop_unlisted
  stop_unlisted-frame tasks [] m w h = refl
  stop_unlisted-frame tasks ((n, s) ∷ rest) m w h = elim (Bool-cases (found n tasks)) [
    | inl e ↦ rw e (stop_unlisted-frame tasks rest m w h.1)
    | inr e ↦ rw e (
        stop_unlisted-frame tasks rest m (stop_and_remove float_eq rt n w).1 h.1
        ∙ stop_and_remove-frame float_eq rt view laws n m w h.0)
  ]

  -- A stop and a removal that return without an error leave no task of that name.
  stop_and_remove-gone :
      (n : Text) (w : W)
      → (stop_and_remove float_eq rt n w).0 ≡ ok tt
      → view (stop_and_remove float_eq rt n w).1 n ≡ none
  unfolding stop_and_remove
  stop_and_remove-gone n w h =
      let (_, stopped, removed, whole) = bind_ok (rt.stop_task n w) (λ _. rt.remove_task n) tt h in
      ap (λ r. view r.1 n) whole ∙ laws.remove_ok n (rt.stop_task n w).1 removed

  -- A reconciliation with a task list and a list of what runs
  reconcile-loops :
      (tasks : List (TaskConfig F)) (listed : List (Text × Status)) (w : W)
      → (rt.list_tasks w).0 ≡ ok listed
      → reconcile float_eq rt (ok tasks) w ≡ (
        ok tt,
        reconcile_tasks float_eq rt tasks
            (stop_unlisted float_eq rt tasks listed (rt.list_tasks w).1),
      )
  unfolding reconcile
  reconcile-loops tasks listed w h = rw h refl

  -- Over a runtime with the laws: a task that runs and is not in the list is gone after a
  -- reconciliation that could list the tasks, each once, if the stop and the removal, at its turn
  -- among those that are listed, return without an error; no later step brings it back.
  pub reconcile-removes :
      (tasks : List (TaskConfig F)) (n : Text) (c : TaskConfig F) (listed : List (Text × Status))
      (w : W)
      → found n tasks ≡ false
      → view w n ≡ some (c, running)
      → (rt.list_tasks w).0 ≡ ok listed
      → IsMap listed
      → ((front back : List (Text × Status)) (s : Status)
          → listed ≡ front ++ (n, s) ∷ back
          → (stop_and_remove float_eq rt n
              (stop_unlisted float_eq rt tasks front (rt.list_tasks w).1)).0
            ≡ ok tt)
      → view (reconcile float_eq rt (ok tasks) w).1 n ≡ none
  unfolding stop_unlisted
  reconcile-removes tasks n c listed w unlisted runs h distinct gone =
      let (front, s, back, e, apart) =
        split_at n listed (laws.list_ok n w listed c h runs) distinct in
      let w0 = (rt.list_tasks w).1 in
      let w1 = stop_unlisted float_eq rt tasks front w0 in
      let w2 = (stop_and_remove float_eq rt n w1).1 in
      let loop : stop_unlisted float_eq rt tasks listed w0
          ≡ stop_unlisted float_eq rt tasks back w2 =
        ap (λ l. stop_unlisted float_eq rt tasks l w0) e
        ∙ stop_unlisted-append tasks front ((n, s) ∷ back) w0
        ∙ rw (unlisted, stop_unlisted) refl in
      ap (λ r. view r.1 n) (reconcile-loops tasks listed w h)
      ∙ reconcile_tasks-frame float_eq rt view laws tasks n
          (stop_unlisted float_eq rt tasks listed w0) (found-All n tasks unlisted)
      ∙ ap (λ v. view v n) loop
      ∙ stop_unlisted-frame tasks back n w2 apart
      ∙ stop_and_remove-gone n w1 (gone front back s e)
