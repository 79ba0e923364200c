-- ===== src/Agent/Reconcile/Laws.antt =====
-- What the agent relies on of a container runtime: each call does what the interface's comments
-- say, as far as its answer tells, and touches no task but its own. `Kept` are the configurations
-- that the runtime reports as they were asked for.
use sco.Common.{◌≡◌, ◌≢◌, Bool, Option, none, some, List}
use sco.Common.Result.{ok}
use sco.Common.Text.{Text}
use sco.Common.Dict.{text_key, lookup}
use sco.Agent.Runtime.{TaskConfig, Status, running, unknown, Runtime}
use sco.Agent.Runtime.Compare.{SameTask}

-- A task of the runtime: the configuration that it reports, and its status.
abbrev pub Task : Type 0 → Type 0
Task F = TaskConfig F × Status

abbrev pub status_of : {F : Type 0} → Option (Task F) → Status
status_of none = unknown
status_of (some (c, s)) = s

abbrev pub config_of : {F : Type 0} → Option (Task F) → Option (TaskConfig F)
config_of none = none
config_of (some (c, s)) = some c

-- `view w name` is the task of that name, and `current w name image` whether its container was made from
-- what the image is now.
pub record Laws {F W : Type 0} (float_eq : F → F → Bool) (rt : Runtime F W)
    (view : W → Text → Option (Task F)) (current : W → Text → Text → Bool)
    (Kept : TaskConfig F → Type 0) : Type 0 where
  -- Questions and pulls change no task.
  pub status_view : (n m : Text) (w : W) → view (rt.get_task_status n w).1 m ≡ view w m
  pub pull_view : (i m : Text) (w : W) → view (rt.pull_image i w).1 m ≡ view w m
  pub info_view : (n m : Text) (w : W) → view (rt.get_task_info n w).1 m ≡ view w m
  pub image_view : (n i m : Text) (w : W) → view (rt.is_task_image_current n i w).1 m ≡ view w m
  pub list_view : (m : Text) (w : W) → view (rt.list_tasks w).1 m ≡ view w m
  -- Their answers are true.
  pub status_ok :
      (n : Text) (w : W) (s : Status) → (rt.get_task_status n w).0 ≡ ok s → s ≡ status_of (view w n)
  pub info_ok :
      (n : Text) (w : W) (c : Option (TaskConfig F))
      → (rt.get_task_info n w).0 ≡ ok c
      → c ≡ config_of (view w n)
  pub image_ok :
      (n i : Text) (w : W) (b : Bool)
      → (rt.is_task_image_current n i w).0 ≡ ok b
      → b ≡ current w n i
  pub listed_ok :
      (n : Text) (w : W) (l : List (Text × Status)) (s : Status)
      → (rt.list_tasks w).0 ≡ ok l
      → lookup n l ≡ some s
      → s ≡ status_of (view w n)
  -- At least what runs is listed.
  pub list_ok :
      (n : Text) (w : W) (l : List (Text × Status)) (c : TaskConfig F)
      → (rt.list_tasks w).0 ≡ ok l
      → view w n ≡ some (c, running)
      → lookup n l ≢ none
  -- A call on one task leaves the others.
  pub start_frame :
      (t : TaskConfig F) (m : Text) (w : W) → t.name ≢ m → view (rt.start_task t w).1 m ≡ view w m
  pub stop_frame : (n m : Text) (w : W) → n ≢ m → view (rt.stop_task n w).1 m ≡ view w m
  pub remove_frame : (n m : Text) (w : W) → n ≢ m → view (rt.remove_task n w).1 m ≡ view w m
  -- What it does to its own, if it returns no error.
  pub start_new :
      (t : TaskConfig F) (w : W)
      → Kept t
      → view w t.name ≡ none
      → (rt.start_task t w).0 ≡ ok tt
      → (c : TaskConfig F) × (view (rt.start_task t w).1 t.name ≡ some (c, running))
        × SameTask float_eq t c
  pub start_old :
      (t : TaskConfig F) (w : W) (c : TaskConfig F) (s : Status)
      → view w t.name ≡ some (c, s)
      → (rt.start_task t w).0 ≡ ok tt
      → view (rt.start_task t w).1 t.name ≡ some (c, running)
  pub stop_ok :
      (n : Text) (w : W) (c : TaskConfig F) (s : Status)
      → view w n ≡ some (c, s)
      → (rt.stop_task n w).0 ≡ ok tt
      → (r : Status) × (r ≢ running) × (view (rt.stop_task n w).1 n ≡ some (c, r))
  pub remove_ok :
      (n : Text) (w : W) → (rt.remove_task n w).0 ≡ ok tt → view (rt.remove_task n w).1 n ≡ none
