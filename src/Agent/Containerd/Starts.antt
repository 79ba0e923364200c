-- ===== src/Agent/Containerd/Starts.antt =====
-- StartTask over containerd.
use sco.Common.{◌≡◌, sym, ap, ◌∙◌, ◌++◌, Option, none, some}
use sco.Common.Result.{ok, err}
use sco.Common.Text.{Text, codes}
use sco.Agent.Exec.{pure, bind_wrapped, continue-wrapped, stop_wrapped}
use sco.Agent.Containerd.{
  process_running, Client, namespace, start_new, run_new, create_and_run, start_task,
}
use sco.Agent.Containerd.ClientLaws.{Entry, ClientLaws}

module _ {W I C T : Type 0} (client : Client W I C T) (entries : W → Text → Option Entry)
    (laws : ClientLaws client entries) where
  -- A new task that was started runs.
  run_new-runs :
      (c : C) (w : W) (k : T)
      → (run_new client c w).0 ≡ ok k
      → (client.task_id k ≡ client.container_id c)
        × (entries (run_new client c w).1 (client.container_id c) ≡ some (some process_running))
  run_new-runs c w k h =
      let (t, made, h1, e1) =
        bind_wrapped (codes "create task failed") (client.new_task namespace c w) (start_new client)
          k h in
      let w1 = (client.new_task namespace c w).1 in
      let (_, started, h2, e2) =
        bind_wrapped (codes "start task failed") (client.start namespace t w1) (λ _. pure t) k h1 in
      let same : t ≡ k = cc in
      let its : client.task_id t ≡ client.container_id c = laws.new_task_ok c w t made in
      (
        ap client.task_id (sym same) ∙ its,
        ap (λ r. entries r.1 (client.container_id c)) (e1 ∙ e2)
            ∙ ap (entries (client.start namespace t w1).1) (sym its)
            ∙ laws.start_ok t w1 started,
      )

  -- Over a containerd client with the laws: if StartTask returns without an error, there was no
  -- container of the task's name, and now there is one whose task runs. So a stopped task cannot be
  -- started again while its container is there.
  pub start_task-runs :
      (n image : Text) (w : W) (k : T)
      → (start_task client n image w).0 ≡ ok k
      → (entries w n ≡ none)
        × (client.task_id k ≡ n)
        × (entries (start_task client n image w).1 n ≡ some (some process_running))
  unfolding start_task
  start_task-runs n image w k h =
      let (img, got, h1, e1) =
        bind_wrapped (codes "get image failed") (client.get_image namespace image w)
          (create_and_run client n) k h in
      let w1 = (client.get_image namespace image w).1 in
      let snapshot = n ++ codes "-snapshot" in
      let (c, made, h2, e2) =
        bind_wrapped (codes "create container failed")
          (client.new_container namespace n snapshot img w1) (run_new client) k h1 in
      let w2 = (client.new_container namespace n snapshot img w1).1 in
      let (named, free, _) = laws.new_container_ok n snapshot img w1 c made in
      let (its, runs) = run_new-runs c w2 k h2 in
      (
        sym (laws.get_image_same image n w) ∙ free,
        its ∙ named,
        ap (λ r. entries r.1 n) (e1 ∙ e2) ∙ ap (entries (run_new client c w2).1) (sym named) ∙ runs,
      )

  -- Over a containerd client with the laws: if StartTask has made its container and NewTask fails,
  -- it returns an error and leaves the container behind, without a task.
  pub start_task-leftover :
      (n image : Text) (w : W) (img : I) (c : C) (e : Text)
      → (client.get_image namespace image w).0 ≡ ok img
      → (client.new_container namespace n
          (n ++ codes "-snapshot")
          img
          (client.get_image namespace image w).1).0
        ≡ ok c
      → (client.new_task namespace c
          (client.new_container namespace n
            (n ++ codes "-snapshot")
            img
            (client.get_image namespace image w).1).1).0
        ≡ err e
      → ((start_task client n image w).0 ≡ err (codes "create task failed: " ++ e))
        × (entries (start_task client n image w).1 n ≡ some none)
  unfolding start_task
  start_task-leftover n image w img c e got made fails =
      let w1 = (client.get_image namespace image w).1 in
      let snapshot = n ++ codes "-snapshot" in
      let w2 = (client.new_container namespace n snapshot img w1).1 in
      let (named, _, there) = laws.new_container_ok n snapshot img w1 c made in
      let ends : start_task client n image w
          ≡ (err (codes "create task failed: " ++ e), (client.new_task namespace c w2).1) =
        continue-wrapped (codes "get image failed") (client.get_image namespace image w)
          (create_and_run client n) img got
        ∙ continue-wrapped (codes "create container failed")
            (client.new_container namespace n snapshot img w1) (run_new client) c made
        ∙ stop_wrapped (codes "create task failed") (client.new_task namespace c w2)
            (start_new client) e fails in
      (
        ap (λ r. r.0) ends,
        ap (λ r. entries r.1 n) ends
            ∙ ap (entries (client.new_task namespace c w2).1) (sym named)
            ∙ laws.new_task_fails c w2 e fails
            ∙ ap (entries w2) named
            ∙ there,
      )
