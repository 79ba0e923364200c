-- ===== src/Tests/ContainerdHost.antt =====
-- A containerd host as a table of containers, with the runtime's theorems applied to it.
use sco.Common.{
  ℕ, ◌≡◌, ◌≢◌, refl, sym, ap, subst, ◌∙◌, true, false, Bool, List, [], ◌∷◌, map, Option, none, some,
  arith, Option-cases, inl, inr,
}
use sco.Common.Result.{Result, ok, err}
use sco.Common.Text.{Text, codes}
use sco.Common.Dict.{
  text_key, lookup, insert, delete, lookup-insert_self, lookup-insert_ne, lookup-delete_self,
  lookup-delete_ne,
}
use sco.Agent.Exec.{Exec}
use sco.Agent.Containerd.{
  ProcessStatus, process_created, process_running, process_stopped, Client, start_task, stop_task,
}
use sco.Agent.Containerd.ClientLaws.{Entry, ClientLaws}
use sco.Agent.Containerd.Starts.{start_task-runs}
use sco.Agent.Containerd.Stops.{stop_task-running}

abbrev World : Type 0
World = List (Text × Entry)

abbrev loaded : Text → Option Entry → Result Text Text
loaded n none = err (codes "not found")
loaded n (some e) = ok n

abbrev tasked : Text → Option Entry → Result Text Text
tasked n (some (some p)) = ok n
tasked n (some none) = err (codes "no task")
tasked n none = err (codes "not found")

abbrev created : Text → Option Entry → Exec World Text
created n none w = (ok n, insert n none w)
created n (some e) w = (err (codes "already exists"), w)

abbrev tasked_new : Text → Option Entry → Exec World Text
tasked_new n (some none) w = (ok n, insert n (some process_created) w)
tasked_new n (some (some p)) w = (err (codes "already exists"), w)
tasked_new n none w = (err (codes "not found"), w)

abbrev process_of : Option Entry → Result Text ProcessStatus
process_of (some (some p)) = ok p
process_of (some none) = err (codes "no task")
process_of none = err (codes "not found")

abbrev task_deleted : Text → Option Entry → Exec World (Unit {0})
task_deleted n (some (some process_running)) w = (err (codes "failed precondition"), w)
task_deleted n (some (some process_created)) w = (ok tt, insert n none w)
task_deleted n (some (some process_stopped)) w = (ok tt, insert n none w)
task_deleted n (some (some ProcessStatus.process_other)) w = (ok tt, insert n none w)
task_deleted n (some none) w = (err (codes "no task"), w)
task_deleted n none w = (err (codes "not found"), w)

-- A process takes no notice of SIGTERM for the time being.
abbrev host : Client World Text Text Text
host = record {
  pull = λ ns i w. (ok i, w);
  get_image = λ ns i w. (ok i, w);
  new_container = λ ns n snapshot i w. created n (lookup n w) w;
  load_container = λ ns n w. (loaded n (lookup n w), w);
  containers = λ ns w. (ok (map (λ p. p.0) w), w);
  container_id = λ c. c;
  new_task = λ ns c w. tasked_new c (lookup c w) w;
  task = λ ns c w. (tasked c (lookup c w), w);
  delete_container = λ ns c w. (ok tt, delete c w);
  task_id = λ k. k;
  start = λ ns k w. (ok tt, insert k (some process_running) w);
  kill = λ ns k signal w. (ok tt, w);
  wait = λ ns k w. (ok 0, w);
  receive = λ status_c w. w;
  delete_task = λ ns k w. task_deleted k (lookup k w) w;
  status = λ ns k w. (process_of (lookup k w), w);
}

abbrev entries : World → Text → Option Entry
entries w n = lookup n w

loaded_ok : (n c : Text) (o : Option Entry) → loaded n o ≡ ok c → (c ≡ n) × (o ≢ none)
loaded_ok n c none h = absurd cc
loaded_ok n c (some e) h = (cc, λ p. cc)

tasked_ok : (n k : Text) (o : Option Entry) → tasked n o ≡ ok k → k ≡ n
tasked_ok n k none h = cc
tasked_ok n k (some none) h = cc
tasked_ok n k (some (some p)) h = cc

process_of-ok : (o : Option Entry) (p : ProcessStatus) → process_of o ≡ ok p → o ≡ some (some p)
process_of-ok none p h = cc
process_of-ok (some none) p h = cc
process_of-ok (some (some q)) p h = cc

created_frame :
    (n m : Text) (o : Option Entry) (w : World) → n ≢ m → lookup m (created n o w).1 ≡ lookup m w
created_frame n m none w h = lookup-insert_ne n m none w h
created_frame n m (some e) w h = refl

created_ok :
    (n c : Text) (o : Option Entry) (w : World)
    → (created n o w).0 ≡ ok c
    → (c ≡ n) × (o ≡ none) × (lookup n (created n o w).1 ≡ some none)
created_ok n c none w h = (cc, refl, lookup-insert_self n n none w refl)
created_ok n c (some e) w h = absurd cc

tasked_new-frame :
    (n m : Text) (o : Option Entry) (w : World) → n ≢ m → lookup m (tasked_new n o w).1 ≡ lookup m w
tasked_new-frame n m none w h = refl
tasked_new-frame n m (some none) w h = lookup-insert_ne n m (some process_created) w h
tasked_new-frame n m (some (some p)) w h = refl

tasked_new-ok : (n k : Text) (o : Option Entry) (w : World) → (tasked_new n o w).0 ≡ ok k → k ≡ n
tasked_new-ok n k none w h = cc
tasked_new-ok n k (some none) w h = cc
tasked_new-ok n k (some (some p)) w h = cc

tasked_new-fails :
    (n e : Text) (o : Option Entry) (w : World)
    → (tasked_new n o w).0 ≡ err e
    → (tasked_new n o w).1 ≡ w
tasked_new-fails n e none w h = refl
tasked_new-fails n e (some none) w h = absurd cc
tasked_new-fails n e (some (some p)) w h = refl

task_deleted-frame :
    (n m : Text) (o : Option Entry) (w : World)
    → n ≢ m
    → lookup m (task_deleted n o w).1 ≡ lookup m w
task_deleted-frame n m none w h = refl
task_deleted-frame n m (some none) w h = refl
task_deleted-frame n m (some (some process_running)) w h = refl
task_deleted-frame n m (some (some process_created)) w h = lookup-insert_ne n m none w h
task_deleted-frame n m (some (some process_stopped)) w h = lookup-insert_ne n m none w h
task_deleted-frame n m (some (some ProcessStatus.process_other)) w h = lookup-insert_ne n m none w h

host-ClientLaws : ClientLaws host entries
host-ClientLaws = record {
  get_image_same = λ i m w. refl;
  load_same = λ n m w. refl;
  task_same = λ c m w. refl;
  status_same = λ k m w. refl;
  containers_same = λ m w. refl;
  load_ok = λ n w c h. loaded_ok n c (lookup n w) h;
  task_ok = λ c w k h. tasked_ok c k (lookup c w) h;
  status_ok = λ k w s h. process_of-ok (lookup k w) s h;
  new_container_frame = λ n snapshot m i w h. created_frame n m (lookup n w) w h;
  new_container_ok = λ n snapshot i w c h. created_ok n c (lookup n w) w h;
  new_task_frame = λ c m w h. tasked_new-frame c m (lookup c w) w h;
  new_task_ok = λ c w k h. tasked_new-ok c k (lookup c w) w h;
  new_task_fails = λ c w e h. ap (lookup c) (tasked_new-fails c e (lookup c w) w h);
  start_frame = λ k m w h. lookup-insert_ne k m (some process_running) w h;
  start_ok = λ k w h. lookup-insert_self k k (some process_running) w refl;
  kill_frame = λ k signal m w h. refl;
  wait_frame = λ k m w h. refl;
  delete_task_frame = λ k m w h. task_deleted-frame k m (lookup k w) w h;
  delete_task_running = λ k w h. (
    codes "failed precondition",
    ap (λ o. (task_deleted k o w).0) h,
    ap (λ o. lookup k (task_deleted k o w).1) h ∙ h,
  );
  delete_container_frame = λ c m w h. lookup-delete_ne c m w h;
  delete_container_ok = λ c w h. lookup-delete_self c c w refl;
}

abbrev empty : World
empty = []

start_task-runs_example :
    (lookup (codes "web") empty ≡ none)
    × (◌≡◌ {A = Text} (codes "web") (codes "web"))
    × (lookup (codes "web") (start_task host (codes "web") (codes "nginx") empty).1
        ≡ some (some process_running))
unfolding start_task lookup insert sco.Common.Text.Text-discrete
start_task-runs_example =
    start_task-runs host entries host-ClientLaws (codes "web") (codes "nginx") empty (codes "web")
      refl

abbrev one_running : World
one_running = (codes "web", some process_running) ∷ []

stop_task-running_example :
    (e : Text) × ((stop_task host (codes "web") one_running).0 ≡ err e)
    × (lookup (codes "web") (stop_task host (codes "web") one_running).1
        ≡ some (some process_running))
unfolding lookup sco.Common.Text.Text-discrete
stop_task-running_example =
    stop_task-running host entries host-ClientLaws (codes "web") one_running (codes "web")
      (codes "web") 0 refl refl refl refl refl
