-- ===== src/Agent/Containerd/Stops.antt =====
-- StopTask over containerd.
use sco.Common.{ℕ, ◌≡◌, sym, ap, ◌∙◌, Option, none, some}
use sco.Common.Result.{Result, ok, err}
use sco.Common.Text.{Text, codes}
use sco.Agent.Exec.{Exec, continue, bind_ok, bind_wrapped, continue-wrapped}
use sco.Agent.Containerd.{
  process_running, Client, namespace, delete_both, wait_and_delete, kill_and_delete, stop_loaded,
  stop_task,
}
use sco.Agent.Containerd.ClientLaws.{Entry, ClientLaws}

-- A call before that fails
fails_first :
    {W A B : Type 0} (r : Result Text A × W) (f : A → Exec W B) (e : Text)
    → r.0 ≡ err e
    → continue r f ≡ (err e, r.1)
fails_first (ok a, w) f e h = cc
fails_first (err e', w) f e h = cc

module _ {W I C T : Type 0} (client : Client W I C T) (entries : W → Text → Option Entry)
    (laws : ClientLaws client entries) where
  -- Over a containerd client with the laws: if StopTask returns without an error, the container of
  -- the task is gone, not only stopped.
  pub stop_task-gone :
      (n : Text) (w : W)
      → (stop_task client n w).0 ≡ ok tt
      → entries (stop_task client n w).1 n ≡ none
  unfolding stop_task
  stop_task-gone n w h =
      let (c, loaded, h1, e1) =
        bind_wrapped (codes "load container failed") (client.load_container namespace n w)
          (stop_loaded client) tt h in
      let w1 = (client.load_container namespace n w).1 in
      let (k, found, h2, e2) =
        bind_wrapped (codes "get task failed") (client.task namespace c w1)
          (kill_and_delete client c) tt h1 in
      let w2 = (client.task namespace c w1).1 in
      let (_, killed, h3, e3) =
        bind_wrapped (codes "kill task failed") (client.kill namespace k 15 w2)
          (λ _. wait_and_delete client c k) tt h2 in
      let w3 = (client.kill namespace k 15 w2).1 in
      let (_, waited, h4, e4) =
        bind_wrapped (codes "wait failed") (client.wait namespace k w3)
          (λ _. delete_both client c k) tt h3 in
      let w4 = (client.wait namespace k w3).1 in
      let (_, deleted, h5, e5) =
        bind_ok (client.delete_task namespace k w4) (λ _. client.delete_container namespace c) tt
          h4 in
      let w5 = (client.delete_task namespace k w4).1 in
      let named = (laws.load_ok n w c loaded).0 in
      ap (λ r. entries r.1 n) (e1 ∙ e2 ∙ e3 ∙ e4 ∙ e5)
      ∙ ap (entries (client.delete_container namespace c w5).1) (sym named)
      ∙ laws.delete_container_ok c w5 h5

  -- Over a containerd client with the laws: StopTask takes the channel of task.Wait, but receives
  -- nothing from it; if the process still runs when the calls up to task.Wait have returned, then
  -- StopTask returns an error, and the container is still there with its task running.
  pub stop_task-running :
      (n : Text) (w : W) (c : C) (k : T) (status_c : ℕ)
      → (client.load_container namespace n w).0 ≡ ok c
      → (client.task namespace c (client.load_container namespace n w).1).0 ≡ ok k
      → (client.kill namespace k 15
          (client.task namespace c (client.load_container namespace n w).1).1).0
        ≡ ok tt
      → (client.wait namespace k
          (client.kill namespace k 15
            (client.task namespace c (client.load_container namespace n w).1).1).1).0
        ≡ ok status_c
      → entries
          (client.wait namespace k
            (client.kill namespace k 15
              (client.task namespace c (client.load_container namespace n w).1).1).1).1
          n
        ≡ some (some process_running)
      → (e : Text) × ((stop_task client n w).0 ≡ err e)
        × (entries (stop_task client n w).1 n ≡ some (some process_running))
  unfolding stop_task
  stop_task-running n w c k status_c loaded found killed waited runs =
      let w1 = (client.load_container namespace n w).1 in
      let w2 = (client.task namespace c w1).1 in
      let w3 = (client.kill namespace k 15 w2).1 in
      let w4 = (client.wait namespace k w3).1 in
      let id : client.task_id k ≡ n = laws.task_ok c w1 k found ∙ (laws.load_ok n w c loaded).0 in
      let (e, refused, stays) = laws.delete_task_running k w4 (ap (entries w4) id ∙ runs) in
      let ends : stop_task client n w ≡ (err e, (client.delete_task namespace k w4).1) =
        continue-wrapped (codes "load container failed") (client.load_container namespace n w)
          (stop_loaded client) c loaded
        ∙ continue-wrapped (codes "get task failed") (client.task namespace c w1)
            (kill_and_delete client c) k found
        ∙ continue-wrapped (codes "kill task failed") (client.kill namespace k 15 w2)
            (λ _. wait_and_delete client c k) tt killed
        ∙ continue-wrapped (codes "wait failed") (client.wait namespace k w3)
            (λ _. delete_both client c k) status_c waited
        ∙ fails_first (client.delete_task namespace k w4) (λ _. client.delete_container namespace c)
            e refused in
      (
        e,
        ap (λ r. r.0) ends,
        ap (λ r. entries r.1 n) ends
            ∙ ap (entries (client.delete_task namespace k w4).1) (sym id)
            ∙ stays,
      )
