-- ===== src/Agent/Reconcile.antt =====
-- agent/internal/agent/reconcile.go
pub mod Laws
pub mod Converges
pub mod Loops
pub mod Whole
use sco.Common.{Bool, true, false, not, ◌||◌, List, [], ◌∷◌, Option, none, some, if◌then◌else◌}
use sco.Common.Result.{Result, ok, err}
use sco.Common.Text.{Text}
use sco.Agent.Exec.{Exec, pure, continue, ◌>>=◌, ◌>>◌}
use sco.Agent.Runtime.{TaskConfig, Status, running, stopped, unknown, Runtime, text_eq, compare_to}

abbrev is_running : Status → Bool
is_running running = true
is_running s = false

abbrev is_stopped : Status → Bool
is_stopped stopped = true
is_stopped s = false

-- Is a running task in the task list?
unfoldable pub found : {F : Type 0} → Text → List (TaskConfig F) → Bool
found name [] = false
found name (t ∷ tasks) = if text_eq t.name name then true else found name tasks

module _ {F W : Type 0} (float_eq : F → F → Bool) (rt : Runtime F W) where
  -- if status != StatusStopped { StopTask }; RemoveTask; StartTask
  unfoldable pub restart_task : Status → TaskConfig F → Exec W (Unit {0})
  restart_task status t = do
    if is_stopped status then pure tt else rt.stop_task t.name
    rt.remove_task t.name
    rt.start_task t

  -- The end of reconcileTask for a task that exists; the flag is `restart`.
  unfoldable pub bring_up : Bool → Status → TaskConfig F → Exec W (Unit {0})
  bring_up restart status t =
      if restart
      then restart_task status t
      else if is_running status
      then pure tt
      else rt.start_task t

  -- The part of reconcileTask for a task that exists
  unfoldable pub reconcile_existing : Status → TaskConfig F → TaskConfig F → Exec W (Unit {0})
  reconcile_existing status t current = do
    image_current ← rt.is_task_image_current t.name t.image
    bring_up (not (compare_to float_eq t current) || not image_current) status t

  -- The rest of reconcileTask, after GetTaskInfo
  unfoldable pub reconcile_current :
      Status → TaskConfig F → Option (TaskConfig F) → Exec W (Unit {0})
  reconcile_current status t none = rt.start_task t
  reconcile_current status t (some c) = reconcile_existing status t c

  unfoldable pub reconcile_task : TaskConfig F → Exec W (Unit {0})
  reconcile_task t = do
    status ← rt.get_task_status t.name
    rt.pull_image t.image
    current ← rt.get_task_info t.name
    reconcile_current status t current

  unfoldable pub stop_and_remove : Text → Exec W (Unit {0})
  stop_and_remove name = do rt.stop_task name; rt.remove_task name

  -- The loop over the running tasks: what fails is logged, and the loop goes on.
  unfoldable pub stop_unlisted : List (TaskConfig F) → List (Text × Status) → W → W
  stop_unlisted tasks [] w = w
  stop_unlisted tasks ((name, status) ∷ rest) w =
      stop_unlisted tasks rest (if found name tasks then w else (stop_and_remove name w).1)

  -- The loop over the task list, likewise.
  unfoldable pub reconcile_tasks : List (TaskConfig F) → W → W
  reconcile_tasks [] w = w
  reconcile_tasks (t ∷ tasks) w = reconcile_tasks tasks (reconcile_task t w).1

  -- `get_tasks` is what GetTasks returned.
  unfoldable pub reconcile : Result Text (List (TaskConfig F)) → Exec W (Unit {0})
  reconcile (err e) w = (err e, w)
  reconcile (ok tasks) w =
      continue (rt.list_tasks w)
        (λ listed w'. (ok tt, reconcile_tasks tasks (stop_unlisted tasks listed w')))
