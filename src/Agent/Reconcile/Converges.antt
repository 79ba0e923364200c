-- ===== src/Agent/Reconcile/Converges.antt =====
-- What a reconciliation brings about.
use sco.Common.{
  ◌≡◌, ◌≢◌, refl, sym, ◌∙◌, ap, Bool, true, false, not, ◌||◌, Option, none, some, arith,
}
use mathlib.Core.Path.{subst₂}
use sco.Common.Result.{ok, err}
use sco.Common.Text.{Text}
use sco.Common.Dict.{text_key}
use sco.Agent.Exec.{Exec, continue, bind_ok, bind_keeps}
use sco.Agent.Runtime.{TaskConfig, Status, running, stopped, unknown, Runtime, compare_to}
use sco.Agent.Runtime.Compare.{SameTask, compare_to_iff}
use sco.Agent.Reconcile.Laws.{Laws, Task, status_of, config_of}
use sco.Agent.Reconcile.{
  restart_task, bring_up, reconcile_existing, reconcile_current, reconcile_task, stop_and_remove,
}

module _ {F W : Type 0} {current : W → Text → Text → Bool} {Kept : TaskConfig F → Type 0}
    (float_eq : F → F → Bool) (rt : Runtime F W) (view : W → Text → Option (Task F))
    (laws : Laws float_eq rt view current Kept) where
  -- StopTask and RemoveTask on one task leave the others.
  pub stop_and_remove-frame :
      (n m : Text) (w : W) → n ≢ m → view (stop_and_remove float_eq rt n w).1 m ≡ view w m
  unfolding stop_and_remove
  stop_and_remove-frame n m w h =
      let w1 = (rt.stop_task n w).1 in
      ground (arith, laws.stop_frame n m w h, laws.remove_frame n m w1 h)

  restart_task-frame :
      (status : Status) (t : TaskConfig F) (m : Text) (w : W)
      → t.name ≢ m
      → view (restart_task float_eq rt status t w).1 m ≡ view w m
  unfolding restart_task
  restart_task-frame status t m w h =
      let w1 = (rt.stop_task t.name w).1 in
      let w2 = (rt.remove_task t.name w1).1 in
      let v2 = (rt.remove_task t.name w).1 in
      ground (
        arith,
        laws.stop_frame t.name m w h,
        laws.remove_frame t.name m w1 h,
        laws.remove_frame t.name m w h,
        laws.start_frame t m w2 h,
        laws.start_frame t m v2 h,
      )

  reconcile_existing-frame :
      (status : Status) (t c : TaskConfig F) (m : Text) (w : W)
      → t.name ≢ m
      → view (reconcile_existing float_eq rt status t c w).1 m ≡ view w m
  unfolding reconcile_existing bring_up
  reconcile_existing-frame status t c m w h =
      let w1 = (rt.is_task_image_current t.name t.image w).1 in
      ground (
        arith,
        laws.image_view t.name t.image m w,
        restart_task-frame status t m w1 h,
        laws.start_frame t m w1 h,
      )

  reconcile_current-frame :
      (status : Status) (t : TaskConfig F) (o : Option (TaskConfig F)) (m : Text) (w : W)
      → t.name ≢ m
      → view (reconcile_current float_eq rt status t o w).1 m ≡ view w m
  unfolding reconcile_current
  reconcile_current-frame status t none m w h = laws.start_frame t m w h
  reconcile_current-frame status t (some c) m w h = reconcile_existing-frame status t c m w h

  -- Over a runtime with the laws, reconcileTask changes no task but its own, with an error or without.
  pub reconcile_task-frame :
      (t : TaskConfig F) (m : Text) (w : W)
      → t.name ≢ m
      → view (reconcile_task float_eq rt t w).1 m ≡ view w m
  unfolding reconcile_task
  reconcile_task-frame t m w h =
      let P : W → Type 0 = λ v. view v m ≡ view w m in
      let w1 = (rt.get_task_status t.name w).1 in
      let w2 = (rt.pull_image t.image w1).1 in
      let w3 = (rt.get_task_info t.name w2).1 in
      let h1 : P w1 = laws.status_view t.name m w in
      let h2 : P w2 = laws.pull_view t.image m w1 ∙ h1 in
      let h3 : P w3 = laws.info_view t.name m w2 ∙ h2 in
      bind_keeps P (rt.get_task_status t.name w) _ h1 λ s.
        bind_keeps P (rt.pull_image t.image w1) _ h2 λ _.
          bind_keeps P (rt.get_task_info t.name w2) (reconcile_current float_eq rt s t) h3
            λ o. reconcile_current-frame s t o m w3 h ∙ h3

  -- Over a runtime with the laws, if the pull fails, every task is as it was, also the one that was
  -- to be replaced.
  pub failed_pull :
      (t : TaskConfig F) (e : Text) (w : W)
      → (rt.pull_image t.image (rt.get_task_status t.name w).1).0 ≡ err e
      → (m : Text) → view (reconcile_task float_eq rt t w).1 m ≡ view w m
  unfolding reconcile_task
  failed_pull t e w fails m =
      let w1 = (rt.get_task_status t.name w).1 in
      ground (arith, laws.status_view t.name m w, laws.pull_view t.image m w1)

  -- The last steps of a reconciliation that returned: the task runs, as it was asked for.
  abbrev pub RunsAs : TaskConfig F → W → Type 0
  RunsAs t w = (c : TaskConfig F) × (view w t.name ≡ some (c, running)) × SameTask float_eq t c

  replaced-RunsAs :
      (t : TaskConfig F) (w : W)
      → Kept t
      → (continue (rt.remove_task t.name w) (λ _. rt.start_task t)).0 ≡ ok tt
      → RunsAs t (continue (rt.remove_task t.name w) (λ _. rt.start_task t)).1
  replaced-RunsAs t w kept h =
      let w1 = (rt.remove_task t.name w).1 in
      let (a, removed, started, e) =
        bind_ok (rt.remove_task t.name w) (λ _. rt.start_task t) tt h in
      rw e (laws.start_new t w1 kept (laws.remove_ok t.name w removed) started)

  restart_task-RunsAs :
      (status : Status) (t : TaskConfig F) (w : W)
      → Kept t
      → (restart_task float_eq rt status t w).0 ≡ ok tt
      → RunsAs t (restart_task float_eq rt status t w).1
  unfolding restart_task
  restart_task-RunsAs stopped t w kept h = replaced-RunsAs t w kept h
  restart_task-RunsAs _ t w kept h =
      let rest : Unit {0} → Exec W (Unit {0}) =
        λ _ v. continue (rt.remove_task t.name v) (λ _. rt.start_task t) in
      let (a, done_, after, e) = bind_ok (rt.stop_task t.name w) rest tt h in
      rw e (replaced-RunsAs t (rt.stop_task t.name w).1 kept after)

  bring_up-RunsAs :
      (restart : Bool) (status : Status) (t c : TaskConfig F) (w : W)
      → Kept t
      → view w t.name ≡ some (c, status)
      → (restart ≡ false → SameTask float_eq t c)
      → (bring_up float_eq rt restart status t w).0 ≡ ok tt
      → RunsAs t (bring_up float_eq rt restart status t w).1
  unfolding bring_up
  bring_up-RunsAs true status t c w kept here same_task h = restart_task-RunsAs status t w kept h
  bring_up-RunsAs false running t c w kept here same_task h = (c, here, same_task refl)
  bring_up-RunsAs false stopped t c w kept here same_task h =
      (c, laws.start_old t w c stopped here h, same_task refl)
  bring_up-RunsAs false unknown t c w kept here same_task h =
      (c, laws.start_old t w c unknown here h, same_task refl)

  unchanged :
      (t c : TaskConfig F) (b : Bool)
      → (not (compare_to float_eq t c) || not b) ≡ false
      → SameTask float_eq t c
  unchanged t c b h = (compare_to_iff float_eq t c).0 (ground arith)

  reconcile_existing-RunsAs :
      (status : Status) (t c : TaskConfig F) (w : W)
      → Kept t
      → view w t.name ≡ some (c, status)
      → (reconcile_existing float_eq rt status t c w).0 ≡ ok tt
      → RunsAs t (reconcile_existing float_eq rt status t c w).1
  unfolding reconcile_existing
  reconcile_existing-RunsAs status t c w kept hv h =
      let w1 = (rt.is_task_image_current t.name t.image w).1 in
      let here : view w1 t.name ≡ some (c, status) = laws.image_view t.name t.image t.name w ∙ hv in
      let rest : Bool → Exec W (Unit {0}) =
        λ b. bring_up float_eq rt (not (compare_to float_eq t c) || not b) status t in
      let (b, a, after, e) = bind_ok (rt.is_task_image_current t.name t.image w) rest tt h in
      rw e (
        bring_up-RunsAs (not (compare_to float_eq t c) || not b) status t c w1 kept here
          (unchanged t c b) after)

  reconcile_current-RunsAs :
      (t : TaskConfig F) (o : Option (Task F)) (w : W)
      → Kept t
      → view w t.name ≡ o
      → (reconcile_current float_eq rt (status_of o) t (config_of o) w).0 ≡ ok tt
      → RunsAs t (reconcile_current float_eq rt (status_of o) t (config_of o) w).1
  unfolding reconcile_current
  reconcile_current-RunsAs t none w kept e h = laws.start_new t w kept e h
  reconcile_current-RunsAs t (some (c, s)) w kept e h = reconcile_existing-RunsAs s t c w kept e h

  -- Over a runtime with the laws, which reports the configuration asked for as it was asked for: if
  -- reconcileTask returns without an error, the task runs, in a configuration that CompareTo takes
  -- for the one that was asked for.
  pub reconcile_task-RunsAs :
      (t : TaskConfig F) (w : W)
      → Kept t
      → (reconcile_task float_eq rt t w).0 ≡ ok tt
      → RunsAs t (reconcile_task float_eq rt t w).1
  unfolding reconcile_task
  reconcile_task-RunsAs t w kept h =
      let w1 = (rt.get_task_status t.name w).1 in
      let w2 = (rt.pull_image t.image w1).1 in
      let w3 = (rt.get_task_info t.name w2).1 in
      let k2 : Status → Unit {0} → Exec W (Unit {0}) =
        λ s _ v. continue (rt.get_task_info t.name v) (reconcile_current float_eq rt s t) in
      let k1 : Status → Exec W (Unit {0}) = λ s v. continue (rt.pull_image t.image v) (k2 s) in
      let (s, es, h1, e1) = bind_ok (rt.get_task_status t.name w) k1 tt h in
      let (_u, eu, h2, e2) = bind_ok (rt.pull_image t.image w1) (k2 s) tt h1 in
      let (o, eo, h3, e3) =
        bind_ok (rt.get_task_info t.name w2) (reconcile_current float_eq rt s t) tt h2 in
      let v1 : view w1 t.name ≡ view w t.name = laws.status_view t.name t.name w in
      let v2 : view w2 t.name ≡ view w t.name = laws.pull_view t.image t.name w1 ∙ v1 in
      let v3 : view w3 t.name ≡ view w t.name = laws.info_view t.name t.name w2 ∙ v2 in
      let hs : s ≡ status_of (view w t.name) = laws.status_ok t.name w s es in
      let ho : o ≡ config_of (view w t.name) = laws.info_ok t.name w2 o eo ∙ ap config_of v2 in
      rw (e1 ∙ e2 ∙ e3) (
        subst₂
          (λ a b.
            (reconcile_current float_eq rt a t b w3).0 ≡ ok tt
            → RunsAs t (reconcile_current float_eq rt a t b w3).1)
          (sym hs) (sym ho) (reconcile_current-RunsAs t (view w t.name) w3 kept v3) h3)
