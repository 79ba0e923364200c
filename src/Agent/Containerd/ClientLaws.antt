-- ===== src/Agent/Containerd/ClientLaws.antt =====
-- What containerd documents of its containers and tasks, as far as the runtime relies on it.
use sco.Common.{ℕ, ◌≡◌, ◌≢◌, Option, none, some}
use sco.Common.Result.{ok, err}
use sco.Common.Text.{Text}
use sco.Agent.Containerd.{ProcessStatus, process_running, Client, namespace}

-- A container: the status of its task's process, if it has a task.
abbrev pub Entry : Type 0
Entry = Option ProcessStatus

-- `entries w n` is the container of that id in the namespace of the runtime.
pub record ClientLaws {W I C T : Type 0} (client : Client W I C T)
    (entries : W → Text → Option Entry) : Type 0 where
  -- Questions change nothing.
  pub get_image_same :
      (i m : Text) (w : W) → entries (client.get_image namespace i w).1 m ≡ entries w m
  pub load_same :
      (n m : Text) (w : W) → entries (client.load_container namespace n w).1 m ≡ entries w m
  pub task_same : (c : C) (m : Text) (w : W) → entries (client.task namespace c w).1 m ≡ entries w m
  pub status_same :
      (k : T) (m : Text) (w : W) → entries (client.status namespace k w).1 m ≡ entries w m
  pub containers_same :
      (m : Text) (w : W) → entries (client.containers namespace w).1 m ≡ entries w m
  -- Their answers are true.
  pub load_ok :
      (n : Text) (w : W) (c : C)
      → (client.load_container namespace n w).0 ≡ ok c
      → (client.container_id c ≡ n) × (entries w n ≢ none)
  pub task_ok :
      (c : C) (w : W) (k : T)
      → (client.task namespace c w).0 ≡ ok k
      → client.task_id k ≡ client.container_id c
  pub status_ok :
      (k : T) (w : W) (s : ProcessStatus)
      → (client.status namespace k w).0 ≡ ok s
      → entries w (client.task_id k) ≡ some (some s)
  -- A new container needs an id that is not taken, and has no task yet.
  pub new_container_frame :
      (n snapshot m : Text) (i : I) (w : W)
      → n ≢ m
      → entries (client.new_container namespace n snapshot i w).1 m ≡ entries w m
  pub new_container_ok :
      (n snapshot : Text) (i : I) (w : W) (c : C)
      → (client.new_container namespace n snapshot i w).0 ≡ ok c
      → (client.container_id c ≡ n)
        × (entries w n ≡ none)
        × (entries (client.new_container namespace n snapshot i w).1 n ≡ some none)
  -- A new task is created, and runs once it is started.
  pub new_task_frame :
      (c : C) (m : Text) (w : W)
      → client.container_id c ≢ m
      → entries (client.new_task namespace c w).1 m ≡ entries w m
  pub new_task_ok :
      (c : C) (w : W) (k : T)
      → (client.new_task namespace c w).0 ≡ ok k
      → client.task_id k ≡ client.container_id c
  pub new_task_fails :
      (c : C) (w : W) (e : Text)
      → (client.new_task namespace c w).0 ≡ err e
      → entries (client.new_task namespace c w).1 (client.container_id c)
        ≡ entries w (client.container_id c)
  pub start_frame :
      (k : T) (m : Text) (w : W)
      → client.task_id k ≢ m
      → entries (client.start namespace k w).1 m ≡ entries w m
  pub start_ok :
      (k : T) (w : W)
      → (client.start namespace k w).0 ≡ ok tt
      → entries (client.start namespace k w).1 (client.task_id k) ≡ some (some process_running)
  -- A signal reaches one task; when its process stops is left open, also during a wait.
  pub kill_frame :
      (k : T) (signal : ℕ) (m : Text) (w : W)
      → client.task_id k ≢ m
      → entries (client.kill namespace k signal w).1 m ≡ entries w m
  pub wait_frame :
      (k : T) (m : Text) (w : W)
      → client.task_id k ≢ m
      → entries (client.wait namespace k w).1 m ≡ entries w m
  -- A task whose process runs cannot be deleted.
  pub delete_task_frame :
      (k : T) (m : Text) (w : W)
      → client.task_id k ≢ m
      → entries (client.delete_task namespace k w).1 m ≡ entries w m
  pub delete_task_running :
      (k : T) (w : W)
      → entries w (client.task_id k) ≡ some (some process_running)
      → (e : Text) × ((client.delete_task namespace k w).0 ≡ err e)
        × (entries (client.delete_task namespace k w).1 (client.task_id k)
            ≡ some (some process_running))
  pub delete_container_frame :
      (c : C) (m : Text) (w : W)
      → client.container_id c ≢ m
      → entries (client.delete_container namespace c w).1 m ≡ entries w m
  pub delete_container_ok :
      (c : C) (w : W)
      → (client.delete_container namespace c w).0 ≡ ok tt
      → entries (client.delete_container namespace c w).1 (client.container_id c) ≡ none
