-- ===== src/Agent/Containerd/Answers.antt =====
-- GetTaskStatus and ListTasks over containerd.
use sco.Common.{
  ◌≡◌, ◌≢◌, ◌⊎◌, inl, inr, refl, sym, ap, subst, ◌∙◌, List, [], ◌∷◌, Option, none, some,
}
use sco.Common.Result.{Result, ok, err}
use sco.Common.Text.{Text}
use sco.Common.Dict.{
  text_key, same, lookup, IsMap, insert-IsMap, lookup-insert_self, lookup-insert_ne,
}
use sco.Agent.Exec.{pure, bind_ok}
use sco.Agent.Runtime.{Status, stopped}
use sco.Agent.Containerd.{
  ProcessStatus, Client, namespace, to_status, status_found, get_task_status, add_status, add_task,
  list_into, list_tasks,
}
use sco.Agent.Containerd.ClientLaws.{Entry, ClientLaws}

module _ {W I C T : Type 0} (client : Client W I C T) (entries : W → Text → Option Entry)
    (laws : ClientLaws client entries) where
  -- What ListTasks has found of a container is true.
  abbrev pub Told : W → List (Text × Status) → Type 0
  Told w l =
      (n : Text) (s : Status)
      → lookup n l ≡ some s
      → (p : ProcessStatus) × (entries w n ≡ some (some p)) × (s ≡ to_status p)

  add_status-Told :
      (id : Text) (l : List (Text × Status)) (w : W) (r : Result Text ProcessStatus × W)
      → ((p : ProcessStatus) → r.0 ≡ ok p → entries w id ≡ some (some p))
      → Told w l
      → IsMap l
      → Told w (add_status client id l r).0 × IsMap (add_status client id l r).0
  add_status-Told id l w (err e, w') h told m = (told, m)
  add_status-Told id l w (ok p, w') h told m = (
    (λ n s found. elim (same id n) [
      | yes q ↦
          let status : to_status p ≡ s =
            cc (sym (lookup-insert_self id n (to_status p) l q) ∙ found) in
          (p, ap (entries w) (sym q) ∙ h p refl, sym status)
      | no q ↦ told n s (sym (lookup-insert_ne id n (to_status p) l q) ∙ found)
    ]),
    insert-IsMap id (to_status p) l m,
  )

  add_status-world :
      (id : Text) (l : List (Text × Status)) (r : Result Text ProcessStatus × W)
      → (add_status client id l r).1 ≡ r.1
  add_status-world id l (ok p, w) = refl
  add_status-world id l (err e, w) = refl

  -- Where a loop over containers stands
  abbrev Sound : W → List (Text × Status) × W → Type 0
  Sound w (l, v) = ((m : Text) → entries v m ≡ entries w m) × Told w l × IsMap l

  add_task-Sound :
      (id : Text) (l : List (Text × Status)) (w : W) (r : Result Text T × W)
      → ((k : T) → r.0 ≡ ok k → client.task_id k ≡ id)
      → Sound w (l, r.1)
      → Sound w (add_task client id l r)
  add_task-Sound id l w (err e, v) named s = s
  add_task-Sound id l w (ok k, v) named (same_world, told, m) =
      let r = client.status namespace k v in
      let (told', m') =
        add_status-Told id l w r
          (λ p h.
            sym (same_world id) ∙ ap (entries v) (sym (named k refl)) ∙ laws.status_ok k v p h)
          told m in
      (
        (λ n.
            ap (λ u. entries u n) (add_status-world id l r)
            ∙ laws.status_same k n v
            ∙ same_world n),
        told',
        m',
      )

  list_into-Sound :
      (cs : List C) (w : W) (r : List (Text × Status) × W)
      → Sound w r
      → Sound w (list_into client cs r)
  unfolding list_into
  list_into-Sound [] w r s = s
  list_into-Sound (c ∷ cs) w (l, v) (same_world, told, m) =
      let id = client.container_id c in
      let next = client.task namespace c v in
      list_into-Sound cs w (add_task client id l next) (
        add_task-Sound id l w next (laws.task_ok c v)
          ((λ n. laws.task_same c n v ∙ same_world n), told, m))

  -- Over a containerd client with the laws: ListTasks lists no name twice, and a name that it lists
  -- is that of a container with a task, with the status of its process.
  pub list_tasks-Told :
      (w : W) (l : List (Text × Status)) → (list_tasks client w).0 ≡ ok l → Told w l × IsMap l
  unfolding list_tasks lookup
  list_tasks-Told w l h =
      let (cs, got, h1, _) =
        bind_ok (client.containers namespace w)
          (λ cs v. let r = list_into client cs ([], v) in (ok r.0, r.1)) l h in
      let w1 = (client.containers namespace w).1 in
      let (_, told, m) =
        list_into-Sound cs w ([], w1)
          ((λ n. laws.containers_same n w), (λ n s found. absurd cc), tt) in
      let same_list : (list_into client cs ([], w1)).0 ≡ l = cc in
      subst (λ x. Told w x × IsMap x) same_list (told, m)

  status_found-cases :
      (w : W) (r : Result Text T × W) (s : Status)
      → (status_found client r).0 ≡ ok s
      → ((e : Text) × (r.0 ≡ err e) × (s ≡ stopped))
        ⊎ ((k : T) × (p : ProcessStatus) × (r.0 ≡ ok k)
            × ((client.status namespace k r.1).0 ≡ ok p)
            × (s ≡ to_status p))
  status_found-cases w (err e, v) s h = inl (e, refl, cc)
  status_found-cases w (ok k, v) s h =
      let (p, got, h1, _) = bind_ok (client.status namespace k v) (λ p. pure (to_status p)) s h in
      inr (k, p, refl, got, cc)

  -- Over a containerd client with the laws: if GetTaskStatus returns a status, there is a container
  -- of the name, and the status is that of its task's process, or STOPPED if its task was not found;
  -- without a container it returns an error.
  pub get_task_status-true :
      (n : Text) (w : W) (s : Status)
      → (get_task_status client n w).0 ≡ ok s
      → (entries w n ≢ none)
        × ((s ≡ stopped)
            ⊎ ((p : ProcessStatus) × (entries w n ≡ some (some p)) × (s ≡ to_status p)))
  unfolding get_task_status
  get_task_status-true n w s h =
      let (c, loaded, h1, _) =
        bind_ok (client.load_container namespace n w)
          (λ c v. status_found client (client.task namespace c v)) s h in
      let w1 = (client.load_container namespace n w).1 in
      let (named, there) = laws.load_ok n w c loaded in
      (
        there,
        elim (status_found-cases w (client.task namespace c w1) s h1) [
          | inl (e, failed, is_stopped) ↦ inl is_stopped
          | inr (k, p, found, told, same_status) ↦ inr (
            p,
            sym (laws.load_same n n w)
                ∙ sym (laws.task_same c n w1)
                ∙ ap (entries (client.task namespace c w1).1)
                    (sym (laws.task_ok c w1 k found ∙ named))
                ∙ laws.status_ok k (client.task namespace c w1).1 p told,
            same_status,
          )
        ],
      )
