-- ===== src/Agent/Reconcile/Loops.antt =====
-- The two loops of a reconciliation, in which one failure does not stop the rest.
use sco.Common.{
  ◌≡◌, ◌≢◌, refl, ◌∙◌, ap, Bool, true, false, List, [], ◌∷◌, ◌++◌, Option, All, Bool-cases, inl,
  inr,
}
use sco.Common.Result.{ok}
use sco.Common.Text.{Text}
use sco.Common.Dict.{text_key}
use sco.Agent.Runtime.{TaskConfig, Status, Runtime}
use sco.Agent.Reconcile.Laws.{Laws, Task}
use sco.Agent.Reconcile.Converges.{
  RunsAs, reconcile_task-frame, reconcile_task-RunsAs, stop_and_remove-frame,
}
use sco.Agent.Reconcile.{reconcile_task, found, stop_and_remove, stop_unlisted, reconcile_tasks}

module _ {F W : Type 0} {current : W → Text → Text → Bool} {Kept : TaskConfig F → Type 0}
    (float_eq : F → F → Bool) (rt : Runtime F W) (view : W → Text → Option (Task F))
    (laws : Laws float_eq rt view current Kept) where
  -- Tasks of other names stay as they are.
  pub reconcile_tasks-frame :
      (tasks : List (TaskConfig F)) (m : Text) (w : W)
      → All (λ t. t.name ≢ m) tasks
      → view (reconcile_tasks float_eq rt tasks w) m ≡ view w m
  unfolding reconcile_tasks
  reconcile_tasks-frame [] m w h = refl
  reconcile_tasks-frame (t ∷ tasks) m w h =
      reconcile_tasks-frame tasks m (reconcile_task float_eq rt t w).1 h.1
      ∙ reconcile_task-frame float_eq rt view laws t m w h.0

  reconcile_tasks-append :
      (front back : List (TaskConfig F)) (w : W)
      → reconcile_tasks float_eq rt (front ++ back) w
        ≡ reconcile_tasks float_eq rt back (reconcile_tasks float_eq rt front w)
  unfolding reconcile_tasks
  reconcile_tasks-append [] back w = refl
  reconcile_tasks-append (t ∷ front) back w =
      reconcile_tasks-append front back (reconcile_task float_eq rt t w).1

  -- Over a runtime with the laws, which reports the configuration of the task as it was asked for, a
  -- task whose own reconciliation returned without an error runs as
  -- asked when the loop is over, whatever became of the other tasks, if no later task has its name.
  pub reconcile_tasks-RunsAs :
      (front back : List (TaskConfig F)) (t : TaskConfig F) (w : W)
      → Kept t
      → All (λ u. u.name ≢ t.name) back
      → (reconcile_task float_eq rt t (reconcile_tasks float_eq rt front w)).0 ≡ ok tt
      → RunsAs float_eq rt view laws t (reconcile_tasks float_eq rt (front ++ t ∷ back) w)
  unfolding reconcile_tasks
  reconcile_tasks-RunsAs front back t w kept apart h =
      let w1 = reconcile_tasks float_eq rt front w in
      let w2 = (reconcile_task float_eq rt t w1).1 in
      let (c, v, s) = reconcile_task-RunsAs float_eq rt view laws t w1 kept h in
      rw (reconcile_tasks-append front (t ∷ back) w)
        (c, reconcile_tasks-frame back t.name w2 apart ∙ v, s)

  kept_apart :
      (tasks : List (TaskConfig F)) (n m : Text)
      → found m tasks ≡ true
      → found n tasks ≡ false
      → n ≢ m
  kept_apart tasks n m hm hn e = cc (ap (λ x. found x tasks) e)

  -- Over a runtime with the laws, the first loop leaves every task that is listed, whatever the
  -- runtime reports as running.
  pub stop_unlisted-keeps :
      (tasks : List (TaskConfig F)) (reported : List (Text × Status)) (m : Text) (w : W)
      → found m tasks ≡ true
      → view (stop_unlisted float_eq rt tasks reported w) m ≡ view w m
  unfolding stop_unlisted
  stop_unlisted-keeps tasks [] m w h = refl
  stop_unlisted-keeps tasks ((n, s) ∷ rest) m w h = elim (Bool-cases (found n tasks)) [
    | inl e ↦ rw e (stop_unlisted-keeps tasks rest m w h)
    | inr e ↦ rw e (
        stop_unlisted-keeps tasks rest m (stop_and_remove float_eq rt n w).1 h
        ∙ stop_and_remove-frame float_eq rt view laws n m w (kept_apart tasks n m h e))
  ]
