-- ===== src/Agent/Containerd.antt =====
-- agent/internal/runtime/containerd.go, over a parameter for the containerd client. A context shows
-- as the namespace that it carries.
pub mod ClientLaws
pub mod Starts
pub mod Stops
pub mod Answers
use sco.Common.{ℕ, List, [], ◌∷◌, ◌++◌}
use sco.Common.Result.{Result, ok, err}
use sco.Common.Text.{Text, codes}
use sco.Common.Dict.{text_key, insert}
use sco.Agent.Exec.{Exec, pure, continue, wrapped, ◌>>=◌, ◌>>◌}
use sco.Agent.Runtime.{Status, running, stopped, unknown}

-- containerd.ProcessStatus: Created, Running and Stopped, and the other ones
pub data ProcessStatus : Type 0 where
  process_created process_running process_stopped process_other : ProcessStatus

-- *containerd.Client with its containers and tasks, over a world `W`. Each call has its namespace
-- first; `wait` gives the channel that task.Wait returns, and `receive` is a receive from it.
pub record Client (W I C T : Type 0) : Type 0 where
  pub pull : Text → Text → Exec W I
  pub get_image : Text → Text → Exec W I
  pub new_container : Text → Text → Text → I → Exec W C
  pub load_container : Text → Text → Exec W C
  pub containers : Text → Exec W (List C)
  pub container_id : C → Text
  pub new_task : Text → C → Exec W T
  pub task : Text → C → Exec W T
  pub delete_container : Text → C → Exec W (Unit {0})
  pub task_id : T → Text
  pub start : Text → T → Exec W (Unit {0})
  pub kill : Text → T → ℕ → Exec W (Unit {0})
  pub wait : Text → T → Exec W ℕ
  pub receive : ℕ → W → W
  pub delete_task : Text → T → Exec W (Unit {0})
  pub status : Text → T → Exec W ProcessStatus

-- What withNamespace puts into a context
abbrev pub namespace : Text
namespace = codes "sco"

-- containerd.New, and the runtime around its client
abbrev pub new_containerd_runtime : {W A : Type 0} → Exec W A → Exec W A
new_containerd_runtime new w = wrapped (codes "failed to connect to containerd") (new w)

-- The switch over status.Status
abbrev pub to_status : ProcessStatus → Status
to_status process_running = running
to_status process_stopped = stopped
to_status process_created = unknown
to_status process_other = unknown

module _ {W I C T : Type 0} (client : Client W I C T) where
  pub pull_image : Text → Exec W (Unit {0})
  pull_image image = do
    img ← λ w. wrapped (codes "pull image failed") (client.pull namespace image w)
    pure tt

  -- StartTask from task.Start on
  abbrev pub start_new : T → Exec W T
  start_new task = do
    (λ w. wrapped (codes "start task failed") (client.start namespace task w))
    pure task

  -- StartTask from container.NewTask on
  abbrev pub run_new : C → Exec W T
  run_new container = do
    task ← λ w. wrapped (codes "create task failed") (client.new_task namespace container w)
    start_new task

  -- StartTask from client.NewContainer on
  abbrev pub create_and_run : Text → I → Exec W T
  create_and_run task_id img = do
    container ← λ w.
        wrapped (codes "create container failed")
          (client.new_container namespace task_id (task_id ++ codes "-snapshot") img w)
    run_new container

  -- StartTask, but for the goroutine that it starts last, on the task that it returns here
  unfoldable pub start_task : Text → Text → Exec W T
  start_task task_id image = do
    img ← λ w. wrapped (codes "get image failed") (client.get_image namespace image w)
    create_and_run task_id img

  -- The goroutine of StartTask from the exit on; what the two calls return is dropped.
  abbrev pub clean_up : T → C → Result Text ℕ × W → W
  clean_up task container (err e, w) = w
  clean_up task container (ok status_c, w) =
      (client.delete_container namespace container
        (client.delete_task namespace task (client.receive status_c w)).1).1

  unfoldable pub watch_exit : T → C → W → W
  watch_exit task container w = clean_up task container (client.wait namespace task w)

  -- StopTask from task.Delete on
  abbrev pub delete_both : C → T → Exec W (Unit {0})
  delete_both container task = do
    client.delete_task namespace task
    client.delete_container namespace container

  -- StopTask from task.Wait on, whose channel is dropped
  abbrev pub wait_and_delete : C → T → Exec W (Unit {0})
  wait_and_delete container task = do
    status_c ← λ w. wrapped (codes "wait failed") (client.wait namespace task w)
    delete_both container task

  -- StopTask from task.Kill on
  abbrev pub kill_and_delete : C → T → Exec W (Unit {0})
  kill_and_delete container task = do
    (λ w. wrapped (codes "kill task failed") (client.kill namespace task 15 w))
    wait_and_delete container task

  -- StopTask from container.Task on
  abbrev pub stop_loaded : C → Exec W (Unit {0})
  stop_loaded container = do
    task ← λ w. wrapped (codes "get task failed") (client.task namespace container w)
    kill_and_delete container task

  unfoldable pub stop_task : Text → Exec W (Unit {0})
  stop_task task_id = do
    container ←
        λ w. wrapped (codes "load container failed") (client.load_container namespace task_id w)
    stop_loaded container

  -- A container without a task is a stopped one.
  abbrev pub status_found : Result Text T × W → Result Text Status × W
  status_found (err e, w) = (ok stopped, w)
  status_found (ok task, w) = continue (client.status namespace task w) (λ s. pure (to_status s))

  unfoldable pub get_task_status : Text → Exec W Status
  get_task_status task_id = do
    container ← client.load_container namespace task_id
    λ w. status_found (client.task namespace container w)

  abbrev pub add_status :
      Text → List (Text × Status) → Result Text ProcessStatus × W → List (Text × Status) × W
  add_status id result (err e, w) = (result, w)
  add_status id result (ok s, w) = (insert id (to_status s) result, w)

  abbrev pub add_task : Text → List (Text × Status) → Result Text T × W → List (Text × Status) × W
  add_task id result (err e, w) = (result, w)
  add_task id result (ok task, w) = add_status id result (client.status namespace task w)

  -- The loop over the containers
  unfoldable pub list_into : List C → List (Text × Status) × W → List (Text × Status) × W
  list_into [] r = r
  list_into (c ∷ cs) (result, w) =
      list_into cs (add_task (client.container_id c) result (client.task namespace c w))

  unfoldable pub list_tasks : Exec W (List (Text × Status))
  list_tasks = do
    containers ← client.containers namespace
    λ w. let r = list_into containers ([], w) in (ok r.0, r.1)
