-- ===== src/Agent/Docker/Views.antt =====
-- The questions of the Docker runtime: they are answered truly, and change no container.
use sco.Common.{
  ◌≡◌, ◌≢◌, inl, inr, sym, ap, ap₂, subst, ◌∙◌, Bool, false, All, List, [], ◌∷◌, Option, none, some,
}
use sco.Common.Dict.{Key, text_key, lookup}
use sco.Common.Result.{Result, ok}
use sco.Common.Run.{done}
use sco.Common.Text.{Text}
use sco.Agent.Exec.{continue, bind_keeps, bind_ok}
use sco.Agent.Runtime.{TaskConfig, Status, running, text_eq}
use sco.Agent.Reconcile.Laws.{status_of, config_of}
use sco.Agent.DockerClient.{Failure, Summary, Inspection, Client, Conversions}
use sco.Agent.Docker.{
  sco_server_label, returned, status_of_state, info_of, pull_image, get_task_status, get_task_info,
  is_task_image_current,
}
use sco.Agent.Docker.Listing.{list_tasks}
use sco.Agent.Docker.ClientLaws.{Container, IsNamed, Lists, ClientLaws}
use sco.Agent.Docker.Names.{listed-returns, listed-reports, listed-true, listed-world}
use sco.Agent.Docker.Creates.{
  returned-world, returned_ok, found_status-world, found_status_inversion, inspected-world,
  inspected_inversion,
}
use sco.Agent.Docker.Starts.{task_of, view, task_of-some, state_of_running}

-- What is listed has names, and its statuses are those of the containers.
module _ {P W : Type 0} (containers : W → Text → Option (Container P)) where
  abbrev pub is_current : Option (Container P) → Option Text → Bool
  is_current none image = false
  is_current (some c) none = false
  is_current (some c) (some id) = text_eq c.image_id id

  -- Was the container made from what the image is now?
  abbrev pub current : (W → Text → Option Text) → W → Text → Text → Bool
  current images w n i = is_current (containers w n) (images w i)

  names_of :
      (w : W) (items : List Summary)
      → All (Lists containers w) items
      → All (λ s. (n : Text) × IsNamed n s) items
  names_of w [] h = tt
  names_of w (s ∷ items) h = ((h.0.0, h.0.1), names_of w items h.1)

module _ {F P W : Type 0} ⦃port_key : Key P⦄ (float_eq : F → F → Bool) (go : Conversions F P)
    (client : Client W P) (containers : W → Text → Option (Container P))
    {images : W → Text → Option Text} (laws : ClientLaws client containers images) where
  -- ListTasks does not panic.
  pub list_tasks-returns :
      (w : W) → (a : Result Text (List (Text × Status))) × ((list_tasks client w).0 ≡ done a)
  unfolding list_tasks
  list_tasks-returns w =
      listed-returns (client.container_list sco_server_label w)
        (λ items h. names_of containers w items (laws.list_true sco_server_label w items h))

  -- What leaves the containers leaves the tasks.
  pub same_view :
      (w v : W) (m : Text)
      → containers v m ≡ containers w m
      → view go client containers v m ≡ view go client containers w m
  same_view w v m h = ap (task_of go client containers m) h

  pub status-view :
      (n m : Text) (w : W) → containers (get_task_status go client n w).1 m ≡ containers w m
  unfolding get_task_status
  status-view n m w =
      ap (λ v. containers v m) (found_status-world n (client.find_container_by_name n w))
      ∙ laws.find_view n m w

  pub info-view :
      (n m : Text) (w : W) → containers (get_task_info go client n w).1 m ≡ containers w m
  unfolding get_task_info
  info-view n m w =
      ap (λ v. containers v m) (inspected-world go n (client.container_inspect n w))
      ∙ laws.inspect_view n m w

  pub list-view : (m : Text) (w : W) → containers (list_tasks client w).1 m ≡ containers w m
  unfolding list_tasks
  list-view m w =
      ap (λ v. containers v m) (listed-world (client.container_list sco_server_label w))
      ∙ laws.list_view sco_server_label m w

  -- After a call of the client that leaves the containers
  pub call-view :
      {A : Type 0} (r : Result Failure A × W) (m : Text) (w : W)
      → containers r.1 m ≡ containers w m
      → containers (returned r).1 m ≡ containers w m
  call-view r m w h = ap (λ v. containers v m) (returned-world r) ∙ h

  pub pull-view : (i m : Text) (w : W) → containers (pull_image go client i w).1 m ≡ containers w m
  unfolding pull_image
  pull-view i m w =
      let w1 = (returned (client.image_pull i w)).1 in
      let h = call-view (client.image_pull i w) m w (laws.pull_view i m w) in
      bind_keeps (λ v. containers v m ≡ containers w m) (returned (client.image_pull i w))
        (λ k v. returned (client.wait k v)) h
        (λ k. call-view (client.wait k w1) m w (laws.wait_view k m w1 ∙ h))

  pub image-view :
      (n i m : Text) (w : W)
      → containers (is_task_image_current go client n i w).1 m ≡ containers w m
  unfolding is_task_image_current
  image-view n i m w =
      let P : W → Type 0 = λ v. containers v m ≡ containers w m in
      let r = returned (client.container_inspect n w) in
      let w1 = r.1 in
      let h = call-view (client.container_inspect n w) m w (laws.inspect_view n m w) in
      bind_keeps P r
        (λ x v.
          continue (returned (client.image_inspect i v)) (λ d u. (ok (text_eq x.image_id d), u)))
        h
        (λ x.
          let k = call-view (client.image_inspect i w1) m w (laws.image_view i m w1 ∙ h) in
          bind_keeps P (returned (client.image_inspect i w1))
            (λ d u. (ok (text_eq x.image_id d), u)) k (λ d. k))

  pub status-true :
      (n : Text) (w : W) (s : Status)
      → (get_task_status go client n w).0 ≡ ok s
      → s ≡ status_of (view go client containers w n)
  unfolding get_task_status
  status-true n w s h = elim (found_status_inversion n (client.find_container_by_name n w) s h) [
    | inl (f, failed, text, e) ↦
        e
        ∙ ap (λ o. status_of (task_of go client containers n o))
            (sym (laws.find_missing n w f failed text))
    | inr (x, found, e) ↦
        let (c, at, own, state, labels) = laws.find_ok n w x found in
        e (subst (λ l. lookup sco_server_label l ≢ none) (sym labels) (laws.labelled w n c at))
        ∙ (ap status_of_state state
            ∙ ap (λ o. status_of (task_of go client containers n o)) (sym at))
  ]

  pub info-true :
      (n : Text) (w : W) (o : Option (TaskConfig F))
      → (get_task_info go client n w).0 ≡ ok o
      → o ≡ config_of (view go client containers w n)
  unfolding get_task_info
  info-true n w o h = elim (inspected_inversion go n (client.container_inspect n w) o h) [
    | inl (f, failed, missing, e) ↦
        e
        ∙ ap (λ c. config_of (task_of go client containers n c))
            (sym (laws.inspect_missing n w f failed missing))
    | inr (x, found, e) ↦
        let (c, at, _, settings) = laws.inspect_ok n w x found in
        e
        ∙ (ap (λ q. some (info_of go n q)) settings
            ∙ ap (λ q. config_of (task_of go client containers n q)) (sym at))
  ]

  pub list-true :
      (n : Text) (w : W) (l : List (Text × Status)) (c : TaskConfig F)
      → (list_tasks-returns w).0 ≡ ok l
      → view go client containers w n ≡ some (c, running)
      → lookup n l ≢ none
  unfolding list_tasks
  list-true n w l c h here =
      let (a, ran) = list_tasks-returns w in
      let (d, at, _, runs) = task_of-some go client containers n (containers w n) c running here in
      listed-reports (client.container_list sco_server_label w) l n (ran ∙ ap done h) (λ items e. (
        names_of containers w items (laws.list_true sco_server_label w items e),
        laws.list_ok sco_server_label n w items d e at (state_of_running d.state runs)
            (laws.labelled w n d at),
      ))

  statuses_of :
      (w : W) (items : List Summary)
      → All (Lists containers w) items
      → All
          (λ s.
            (n : Text) × IsNamed n s
            × (status_of_state s.state ≡ status_of (view go client containers w n)))
          items
  statuses_of w [] h = tt
  statuses_of w (s ∷ items) h =
      let (n, named, (c, at, state)) = h.0 in
      (
        (
          n,
          named,
          ap status_of_state state
              ∙ ap (λ o. status_of (task_of go client containers n o)) (sym at),
        ),
        statuses_of w items h.1,
      )

  pub listed-status :
      (n : Text) (w : W) (l : List (Text × Status)) (s : Status)
      → (list_tasks-returns w).0 ≡ ok l
      → lookup n l ≡ some s
      → s ≡ status_of (view go client containers w n)
  unfolding list_tasks
  listed-status n w l s h at =
      let (a, ran) = list_tasks-returns w in
      listed-true (λ m. status_of (view go client containers w m))
        (client.container_list sco_server_label w) l (ran ∙ ap done h)
        (λ items e. statuses_of w items (laws.list_true sco_server_label w items e)) n s at

  -- IsTaskImageCurrent compares the image of the container with what the host has under the name.
  pub image-true :
      (n i : Text) (w : W) (b : Bool)
      → (is_task_image_current go client n i w).0 ≡ ok b
      → b ≡ current containers images w n i
  unfolding is_task_image_current
  image-true n i w b h =
      let w1 = (returned (client.container_inspect n w)).1 in
      let compare : Inspection P → Text → W → Result Text Bool × W =
        λ x d u. (ok (text_eq x.image_id d), u) in
      let ask : Inspection P → W → Result Text Bool × W =
        λ x v. continue (returned (client.image_inspect i v)) (compare x) in
      let (x, found, h1, _) = bind_ok (returned (client.container_inspect n w)) ask b h in
      let (d, has, h2, _) = bind_ok (returned (client.image_inspect i w1)) (compare x) b h1 in
      let (c, at, id, _) =
        laws.inspect_ok n w x (returned_ok (client.container_inspect n w) x found) in
      let here : images w i ≡ some d =
        sym (laws.inspect_images n i w)
        ∙ (ap (λ v. images v i) (sym (returned-world (client.container_inspect n w)))
            ∙ laws.image_ok i w1 d (returned_ok (client.image_inspect i w1) d has)) in
      let told : text_eq x.image_id d ≡ b = cc in
      sym told ∙ (ap (λ q. text_eq q d) id ∙ ap₂ (is_current containers) (sym at) (sym here))

  -- FindContainerByName found the container of a task.
  pub found_of :
      (n : Text) (w : W) (s : Summary)
      → (client.find_container_by_name n w).0 ≡ ok s
      → (c : Container P) × (containers (client.find_container_by_name n w).1 n ≡ some c)
        × (s.id ≡ c.id)
        × (s.state ≡ c.state)
  found_of n w s h =
      let (c, at, own, state, _) = laws.find_ok n w s h in
      (c, laws.find_view n n w ∙ at, own, state)
