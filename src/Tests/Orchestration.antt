-- ===== src/Tests/Orchestration.antt =====
-- The agent against a container runtime that is a table of tasks, and against the server's handlers.
use sco.Common.{
  ℕ, ◌≡◌, ◌≢◌, ◌↔◌, refl, sym, subst, ap, ◌∙◌, Bool, true, false, List, [], ◌∷◌, ◌++◌, map, Option,
  none, some, arith, ite, length, replicate, if_pos, if_neg, if◌then◌else◌, ◌==◌, Bool-cases, inl,
  inr, Option-cases, ℕ_discrete,
}
use sco.Common.Result.{Result, ok, err}
use sco.Common.Text.{Text, codes}
use sco.Common.Int.{ℤ}
use sco.Common.Dict.{
  text_key, lookup, insert, delete, lookup-insert_self, lookup-insert_ne, lookup-delete_self,
  lookup-delete_ne,
}
use sco.SharedModels.{NodeTask}
use sco.Agent.Exec.{Exec}
use sco.Agent.Runtime.{
  TaskConfig, Status, running, stopped, Runtime, compare_to, all_contained, contains, ports_match,
  port_at, text_eq,
}
use sco.Agent.Runtime.Compare.{SameTask, compare_to_iff, Wants, compare_to-Wants}
use sco.Agent.Reconcile.{
  reconcile_task, reconcile_current, reconcile_existing, bring_up, restart_task,
}
use sco.Agent.Reconcile.Laws.{Laws, Task, status_of, config_of}
use sco.Agent.Reconcile.Converges.{RunsAs, reconcile_task-RunsAs}
use sco.Agent.Commands.{authenticate, to_config}
use sco.Agent.Commands.Network.{Call, delivered, loopback}
use sco.Agent.Commands.Loopback.{Accepted, authenticate_iff}
use sco.CommandStore.{ConnCtx}
use sco.Tests.Peers.{cfg, count, web}

abbrev pub World : Type 0
World = List (Text × Task ℕ)

-- A task that is there is started again; a new one is started as asked, if that can be.
abbrev start : TaskConfig ℕ → Option (Task ℕ) → Exec World (Unit {0})
start t (some (c, s)) w = (ok tt, insert t.name (c, running) w)
start t none w =
    if compare_to ◌==◌ t t
    then (ok tt, insert t.name (t, running) w)
    else (err (codes "no such task"), w)

abbrev stop : Text → Option (Task ℕ) → Exec World (Unit {0})
stop n (some (c, s)) w = (ok tt, insert n (c, stopped) w)
stop n none w = (err (codes "not found"), w)

abbrev statuses : World → List (Text × Status)
statuses [] = []
statuses ((n, (c, s)) ∷ w) = (n, s) ∷ statuses w

-- Images that start with an x cannot be pulled.
abbrev pull : Text → Result Text (Unit {0})
pull [] = ok tt
pull (c ∷ cs) = if c == 120 then err (codes "no image") else ok tt

abbrev pub made_from : Option (Task ℕ) → Text → Bool
made_from none i = false
made_from (some (c, s)) i = text_eq c.image i

abbrev pub table : Runtime ℕ World
table = record {
  pull_image = λ i w. (pull i, w);
  start_task = λ t w. start t (lookup t.name w) w;
  stop_task = λ n w. stop n (lookup n w) w;
  remove_task = λ n w. (ok tt, delete n w);
  get_task_status = λ n w. (ok (status_of (lookup n w)), w);
  get_task_info = λ n w. (ok (config_of (lookup n w)), w);
  is_task_image_current = λ n i w. (ok (made_from (lookup n w) i), w);
  list_tasks = λ w. (ok (statuses w), w);
}

abbrev pub view : World → Text → Option (Task ℕ)
view w n = lookup n w

abbrev pub current : World → Text → Text → Bool
current w n i = made_from (lookup n w) i

start-frame :
    (t : TaskConfig ℕ) (o : Option (Task ℕ)) (m : Text) (w : World)
    → t.name ≢ m
    → lookup m (start t o w).1 ≡ lookup m w
start-frame t (some (c, s)) m w h = lookup-insert_ne t.name m (c, running) w h
start-frame t none m w h = ground (arith, lookup-insert_ne t.name m (t, running) w h)

stop-frame :
    (n : Text) (o : Option (Task ℕ)) (m : Text) (w : World)
    → n ≢ m
    → lookup m (stop n o w).1 ≡ lookup m w
stop-frame n (some (c, s)) m w h = lookup-insert_ne n m (c, stopped) w h
stop-frame n none m w h = refl

start-new :
    (t : TaskConfig ℕ) (o : Option (Task ℕ)) (w : World)
    → o ≡ none
    → (start t o w).0 ≡ ok tt
    → (c : TaskConfig ℕ) × (lookup t.name (start t o w).1 ≡ some (c, running)) × SameTask ◌==◌ t c
start-new t (some x) w e h = absurd cc
start-new t none w e h = elim (Bool-cases (compare_to ◌==◌ t t)) [
  | inl q ↦ (
    t,
    rw q (lookup-insert_self t.name t.name (t, running) w refl),
    (compare_to_iff ◌==◌ t t).0 q,
  )
  | inr q ↦ absurd (ground arith)
]

start-old :
    (t : TaskConfig ℕ) (o : Option (Task ℕ)) (w : World) (c : TaskConfig ℕ) (s : Status)
    → o ≡ some (c, s)
    → lookup t.name (start t o w).1 ≡ some (c, running)
start-old t none w c s e = absurd cc
start-old t (some (d, r)) w c s e =
    ground (arith, lookup-insert_self t.name t.name (d, running) w refl)

statuses-lookup :
    (n : Text) (w : World) (t : Task ℕ) → lookup n w ≡ some t → lookup n (statuses w) ≢ none
unfolding lookup
statuses-lookup n [] t h = cc
statuses-lookup n ((m, (c, s)) ∷ w) t h = ground (arith, statuses-lookup n w t)

statuses_true :
    (n : Text) (w : World) (s : Status)
    → lookup n (statuses w) ≡ some s
    → s ≡ status_of (lookup n w)
unfolding lookup
statuses_true n [] s h = absurd cc
statuses_true n ((m, (c, r)) ∷ w) s h = ground (arith, statuses_true n w s)

stop_own :
    (n : Text) (o : Option (Task ℕ)) (w : World) (c : TaskConfig ℕ) (s : Status)
    → o ≡ some (c, s)
    → lookup n (stop n o w).1 ≡ some (c, stopped)
stop_own n none w c s e = absurd cc
stop_own n (some (d, r)) w c s e = ground (arith, lookup-insert_self n n (d, stopped) w refl)

pub table-Laws : Laws ◌==◌ table view current (λ t. compare_to ◌==◌ t t ≡ true)
table-Laws = record {
  status_view = λ n m w. refl;
  pull_view = λ i m w. refl;
  info_view = λ n m w. refl;
  image_view = λ n i m w. refl;
  list_view = λ m w. refl;
  status_ok = λ n w s h. cc;
  info_ok = λ n w c h. cc;
  image_ok = λ n i w b h. cc;
  listed_ok =
      λ n w l s h e. let q : statuses w ≡ l = cc in statuses_true n w s (ap (lookup n) q ∙ e);
  list_ok = λ n w l c h e.
      let q : statuses w ≡ l = cc in
      subst (λ x. lookup n x ≢ none) q (statuses-lookup n w (c, running) e);
  start_frame = λ t m w h. start-frame t (lookup t.name w) m w h;
  stop_frame = λ n m w h. stop-frame n (lookup n w) m w h;
  remove_frame = λ n m w h. lookup-delete_ne n m w h;
  start_new = λ t w kept e h. start-new t (lookup t.name w) w e h;
  start_old = λ t w c s e h. start-old t (lookup t.name w) w c s e;
  stop_ok = λ n w c s e h. (stopped, (λ p. cc), stop_own n (lookup n w) w c s e);
  remove_ok = λ n w h. lookup-delete_self n n w refl;
}

abbrev pub wanted : TaskConfig ℕ
wanted = to_config web

abbrev pub unpullable : TaskConfig ℕ
unpullable = record wanted { name = codes "x"; image = codes "x" }

-- Another version of the task runs, and a task that nobody asked for.
abbrev pub before : World
before =
    (codes "web", (record wanted { image = codes "apache" }, running))
    ∷ (codes "legacy", (record wanted { name = codes "legacy" }, running))
    ∷ []

reconcile_task-RunsAs_example :
    RunsAs ◌==◌ table view table-Laws wanted (reconcile_task ◌==◌ table wanted before).1
unfolding reconcile_task reconcile_current reconcile_existing bring_up restart_task compare_to
    all_contained contains ports_match port_at sco.Common.Sort.sort sco.Common.Text.Text-discrete
    sco.Common.Int.ℤ-discrete lookup insert delete
reconcile_task-RunsAs_example =
    reconcile_task-RunsAs ◌==◌ table view table-Laws wanted before refl refl

-- One that exposes a port
abbrev public : TaskConfig ℕ
public = record wanted { exposed_ports = (codes "80", codes "8080") ∷ [] }

compare_to-Wants_example :
    (compare_to ◌==◌ public (record public { command = codes "run" ∷ [] }) ≡ true)
    ↔ Wants ◌==◌ public (record public { command = codes "run" ∷ [] })
compare_to-Wants_example =
    compare_to-Wants ◌==◌ public (record public { command = codes "run" ∷ [] })
      ((λ h. absurd cc), tt)

abbrev pub fresh : ConnCtx
fresh = record { id = codes "c"; last_activity = 0; custom_data = none }

-- The other end of `count`: as many tasks as the text says.
abbrev pub uncount : Text → Result Text (List (NodeTask ℕ))
uncount [] = err (codes "no number")
uncount (n ∷ rest) = ok (replicate n web)

-- Every call gets its response, but that the connection is replaced before the second one.
abbrev unsteady : ℕ → Call
unsteady i = record { replaced = if i == 1 then some (codes "c2") else none; fate = delivered }

authenticate_iff_example :
    ((authenticate (loopback count cfg unsteady) cfg.access_token (fresh, 0)).0 ≡ ok tt)
    ↔ Accepted count cfg unsteady 0 cfg.access_token
authenticate_iff_example = authenticate_iff count cfg unsteady fresh 0 cfg.access_token
