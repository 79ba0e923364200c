-- ===== src/Agent/Docker/Refines.antt =====
-- The Docker runtime does what the interface Runtime asks for.
use sco.Common.{◌≡◌, ◌≢◌, inl, inr, ap, ◌∙◌, Bool, List, Option, none, some}
use sco.Common.Dict.{Key, text_key}
use sco.Common.Result.{Result, ok}
use sco.Common.Run.{done}
use sco.Common.Text.{Text}
use sco.Agent.Runtime.{TaskConfig, Status, running, Runtime}
use sco.Agent.Runtime.Compare.{SameTask}
use sco.Agent.Reconcile.Laws.{Laws}
use sco.Agent.DockerClient.{Client, Conversions}
use sco.Agent.Docker.{
  info_of, pull_image, start_task, stop_task, remove_task, get_task_status, get_task_info,
  is_task_image_current, status_of_state,
}
use sco.Agent.Docker.Listing.{list_tasks}
use sco.Agent.Docker.RoundTrip.{Representable}
use sco.Agent.Docker.ClientLaws.{Container, ClientLaws}
use sco.Agent.Docker.Creates.{returned-world, returned_ok}
use sco.Agent.Docker.Starts.{
  task_of, view, task_of-some, task_of-none, start_found-frame, start_found-runs, running_state,
  state_of_running,
}
use sco.Agent.Docker.Views.{
  list_tasks-returns, same_view, status-view, info-view, list-view, call-view, pull-view,
  image-view, status-true, info-true, list-true, listed-status, image-true, current, found_of,
}

-- DockerRuntime as a Runtime; `listing` says that ListTasks does not panic.
abbrev pub docker_runtime :
    {F P W : Type 0} ⦃port_key : Key P⦄
    → Conversions F P
    → (client : Client W P)
    → ((w : W) → (a : Result Text (List (Text × Status))) × ((list_tasks client w).0 ≡ done a))
    → Runtime F W
docker_runtime go client listing = record {
  pull_image = pull_image go client;
  start_task = start_task go client;
  stop_task = stop_task go client;
  remove_task = remove_task go client;
  get_task_status = get_task_status go client;
  get_task_info = get_task_info go client;
  is_task_image_current = is_task_image_current go client;
  list_tasks = λ w. ((listing w).0, (list_tasks client w).1);
}

module _ {F P W : Type 0} ⦃port_key : Key P⦄ (float_eq : F → F → Bool) (go : Conversions F P)
    (client : Client W P) (containers : W → Text → Option (Container P))
    {images : W → Text → Option Text} (laws : ClientLaws client containers images) where
  start-frame :
      (t : TaskConfig F) (m : Text) (w : W)
      → t.name ≢ m
      → containers (start_task go client t w).1 m ≡ containers w m
  unfolding start_task
  start-frame t m w ne =
      start_found-frame go client containers float_eq laws t m
        (client.find_container_by_name t.name w) ne
        (λ s h.
          let (c, at, own, state) = found_of float_eq go client containers laws t.name w s h in
          (c, at, own))
      ∙ laws.find_view t.name m w

  start-new :
      (t : TaskConfig F) (w : W)
      → Representable float_eq go t
      → view go client containers w t.name ≡ none
      → (start_task go client t w).0 ≡ ok tt
      → (c : TaskConfig F) × (view go client containers (start_task go client t w).1 t.name
          ≡ some (c, running))
        × SameTask float_eq t c
  unfolding start_task
  start-new t w fine here h =
      let r = client.find_container_by_name t.name w in
      elim (start_found-runs go client containers float_eq laws t r
        (found_of float_eq go client containers laws t.name w) h) [
          | inl (c, at, now) ↦
              let gone = task_of-none go client containers t.name (containers w t.name) here in
              absurd (cc (laws.find_view t.name t.name w, gone))
          | inr (gone, (c, now, same_task)) ↦ (
            info_of go t.name c.settings,
            ap (task_of go client containers t.name) now
                ∙ ap (λ s. some (info_of go t.name c.settings, s)) running_state,
            same_task fine,
          )
        ]

  start-old :
      (t : TaskConfig F) (w : W) (c : TaskConfig F) (s : Status)
      → view go client containers w t.name ≡ some (c, s)
      → (start_task go client t w).0 ≡ ok tt
      → view go client containers (start_task go client t w).1 t.name ≡ some (c, running)
  unfolding start_task
  start-old t w c s here h =
      let r = client.find_container_by_name t.name w in
      let (d, at, info, _) =
        task_of-some go client containers t.name (containers w t.name) c s here in
      elim (start_found-runs go client containers float_eq laws t r
        (found_of float_eq go client containers laws t.name w) h) [
          | inr (gone, _) ↦ absurd (cc (laws.find_view t.name t.name w, at, gone))
          | inl (e, now_at, now) ↦
              let own : e ≡ d = cc (laws.find_view t.name t.name w, at, now_at) in
              ap (task_of go client containers t.name) now
              ∙ (ap (λ q. some (info_of go t.name e.settings, q)) running_state
                  ∙ ap (λ q. some (q, running)) (ap (λ x. info_of go t.name x.settings) own ∙ info))
        ]

  -- An ok stop leaves the container as it is, but that it does not run.
  stop-ends :
      (n : Text) (w : W) (c : TaskConfig F) (s : Status)
      → view go client containers w n ≡ some (c, s)
      → (stop_task go client n w).0 ≡ ok tt
      → (r : Status) × (r ≢ running)
        × (view go client containers (stop_task go client n w).1 n ≡ some (c, r))
  unfolding stop_task
  stop-ends n w c s here h =
      let (d, at, info, _) = task_of-some go client containers n (containers w n) c s here in
      let (state, stands, now) =
        laws.stop_ok n d w at (returned_ok (client.container_stop n w) tt h) in
      (
        status_of_state state,
        (λ runs. stands (state_of_running state runs)),
        ap (task_of go client containers n)
              (ap (λ v. containers v n) (returned-world (client.container_stop n w)) ∙ now)
            ∙ ap (λ q. some (q, status_of_state state)) info,
      )

  -- Over a Docker client that does what Docker documents, on a host whose containers are all the
  -- agent's, DockerRuntime does what the interface Runtime promises. Questions and pulls change no task.
  -- The status, the configuration and the listed statuses are those of the tasks, every running task is
  -- listed, and IsTaskImageCurrent tells whether the container was made from what the host has under
  -- the image's name. A call on one task leaves the others. Where it returns no error, a started task
  -- runs, and a new one is reported as it was asked for if its configuration is representable (a CPU
  -- share that comes back equal from billionths of a core, 0 to 2^43 - 1 MB, and a map of ports whose
  -- keys ParsePort takes for the number that they are the decimal of); a task that was there and is
  -- stopped keeps its configuration and does not run; a removed one is gone.
  pub docker_runtime-Laws :
      Laws float_eq
        (docker_runtime go client (list_tasks-returns float_eq go client containers laws))
        (view go client containers)
        (current containers images)
        (Representable float_eq go)
  unfolding stop_task remove_task
  docker_runtime-Laws = record {
    status_view = λ n m w.
        same_view float_eq go client containers laws w _ m
          (status-view float_eq go client containers laws n m w);
    pull_view = λ i m w.
        same_view float_eq go client containers laws w _ m
          (pull-view float_eq go client containers laws i m w);
    info_view = λ n m w.
        same_view float_eq go client containers laws w _ m
          (info-view float_eq go client containers laws n m w);
    image_view = λ n i m w.
        same_view float_eq go client containers laws w _ m
          (image-view float_eq go client containers laws n i m w);
    list_view = λ m w.
        same_view float_eq go client containers laws w _ m
          (list-view float_eq go client containers laws m w);
    status_ok = status-true float_eq go client containers laws;
    info_ok = info-true float_eq go client containers laws;
    image_ok = image-true float_eq go client containers laws;
    listed_ok = listed-status float_eq go client containers laws;
    list_ok = list-true float_eq go client containers laws;
    start_frame =
        λ t m w h. same_view float_eq go client containers laws w _ m (start-frame t m w h);
    stop_frame = λ n m w h. same_view float_eq go client containers laws w _ m (
        call-view float_eq go client containers laws (client.container_stop n w) m w
          (laws.stop_frame n m w h));
    remove_frame = λ n m w h. same_view float_eq go client containers laws w _ m (
        call-view float_eq go client containers laws (client.container_remove n w) m w
          (laws.remove_frame n m w h));
    start_new = start-new;
    start_old = start-old;
    stop_ok = stop-ends;
    remove_ok = λ n w h. ap (task_of go client containers n) (
        ap (λ v. containers v n) (returned-world (client.container_remove n w))
        ∙ laws.remove_ok n w (returned_ok (client.container_remove n w) tt h));
  }
