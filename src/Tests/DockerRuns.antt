-- ===== src/Tests/DockerRuns.antt =====
-- The agent over a host of containers.
use mathlib.Core.List.{Mem, mem-cons}
use mathlib.Core.List.Perm
use mathlib.Core.Logic.Or
use sco.Common.{
  ℕ, ◌*◌, ◌/◌, ◌^◌, ◌<◌, ◌≡◌, ◌≢◌, inl, inr, refl, sym, ap, subst, ◌∙◌, Bool, true, false, List, [],
  ◌∷◌, ◌++◌, Option, none, some, All, arith, ite, if◌then◌else◌, ◌==◌, ℕ_discrete, Option-cases,
}
use sco.Common.Int.{pos, negsuc}
use sco.Common.Result.{Result, ok}
use sco.Common.Text.{Text, codes}
use sco.Common.Dict.{nat_key, text_key, same, lookup, insert, lookup-delete_self, lookup-delete_ne}
use sco.Agent.Runtime.{TaskConfig, text_eq}
use sco.Agent.DockerClient.{Conversions}
use sco.Agent.Docker.{
  sco_server_label, state_running, state_exited, convert_port_bindings, info_of, create_options,
}
use sco.Agent.Docker.RoundTrip.{Representable, Reported, info_of-Reported}
use sco.Agent.Docker.ClientLaws.{Container, ClientLaws, Lists}
use sco.Agent.Reconcile.{reconcile_task}
use sco.Agent.Docker.Reconciles.{runtime}
use sco.Agent.Docker.Refines.{docker_runtime, docker_runtime-Laws}
use sco.Agent.Reconcile.Laws.{Laws}
use sco.Agent.Docker.Starts.{view}
use sco.Agent.Docker.Views.{list_tasks-returns, current}
use sco.Tests.DockerHost.{
  Host, container_of, containers, images, summaries, put, docker, container_of-some, put-frame,
  put_self, find_sound, find_gone, inspect_sound, inspect_gone, listed_all, all-Lists, own_label,
  started_none, created_as, create-frame,
}

docker-ClientLaws : ClientLaws docker containers images
docker-ClientLaws = record {
  pull_view = λ i m w. refl;
  wait_view = λ k m w. refl;
  find_view = λ n m w. refl;
  list_view = λ l m w. refl;
  inspect_view = λ n m w. refl;
  image_view = λ i m w. refl;
  inspect_images = λ n i w. refl;
  image_ok = λ i w id h. cc;
  ids_differ = λ w n m c d hc hd e.
      let (b, _, own) = container_of-some n (lookup n w) c hc in
      let (b', _, own') = container_of-some m (lookup m w) d hd in
      ap (λ x. x.id) (sym own) ∙ (e ∙ ap (λ x. x.id) own');
  labelled = λ w n c h e.
      let (b, _, own) = container_of-some n (lookup n w) c h in
      own_label (sym (ap (λ x. lookup sco_server_label x.labels) own) ∙ e);
  find_ok = λ n w s h. find_sound n (lookup n w) s h;
  find_missing = λ n w f h _. find_gone n (lookup n w) f h;
  inspect_ok = λ n w r h. inspect_sound n (lookup n w) r h;
  inspect_missing = λ n w f h _. inspect_gone n (lookup n w) f h;
  list_ok = λ l n w items c h at _ _.
      let (b, here, _) = container_of-some n (lookup n w) c at in
      let all_of : summaries w ≡ items = cc in
      let (s, inside, named) = listed_all w n b here in
      (s, subst (λ x. Mem s x) all_of inside, named);
  list_true = λ l w items h.
      let all_of : summaries w ≡ items = cc in
      subst (λ x. All (Lists containers w) x) all_of (all-Lists w w);
  create_ok = λ o w id h. created_as o (lookup o.name w) w id h;
  create_frame = λ o m w h. ap (container_of m) (create-frame o (lookup o.name w) m w h);
  start_ok = λ n c w at h.
      let (b, here, own) = container_of-some n (lookup n w) c at in
      let e : n ≡ c.id = sym (ap (λ x. x.id) own) in
      subst
        (λ i.
          containers (put i state_running (lookup i w) w).1 n
          ≡ some (record c { state = state_running }))
        e
        (ap (container_of n) (put_self n state_running (lookup n w) w b here)
          ∙ ap {A = Container ℕ} (λ x. some (record x { state = state_running })) (sym own));
  start_frame = λ id m w other. elim (same id m) [
    | yes p ↦ elim (Option-cases (lookup m w)) [
      | inl e ↦ started_none id m w p e
      | inr (b, e) ↦ absurd (other _ (ap (container_of m) e) (sym p))
    ]
    | no p ↦ ap (container_of m) (put-frame id m state_running (lookup id w) w p)
  ];
  stop_ok = λ n c w at h.
      let (b, here, own) = container_of-some n (lookup n w) c at in
      (
        state_exited,
        (λ e. cc),
        ap (container_of n) (put_self n state_exited (lookup n w) w b here)
            ∙ ap {A = Container ℕ} (λ x. some (record x { state = state_exited })) (sym own),
      );
  stop_frame = λ n m w h. ap (container_of m) (put-frame n m state_exited (lookup n w) w h);
  remove_frame = λ n m w h. ap (container_of m) (lookup-delete_ne n m w h);
  remove_ok = λ n w h. ap (container_of n) (lookup-delete_self n n w refl);
}

abbrev conversions : Conversions ℕ ℕ
conversions = record {
  marshal = λ t. ok t.name;
  parse_port = λ t. if text_eq t (codes "80/tcp") then some 80 else none;
  num = λ p. p;
  to_nanos = λ x. pos (x * 1000000000);
  of_nanos = λ z. elim z [ pos n ↦ n / 1000000000 | negsuc n ↦ 0 ];
}

abbrev shop : TaskConfig ℕ
shop = record {
  name = codes "shop";
  image = codes "nginx";
  command = [];
  environment_variables = codes "A=1" ∷ [];
  exposed_ports = (codes "80", codes "8080") ∷ [];
  volumes = [];
  max_cpu = 2;
  max_memory = pos 512;
}

shop-Representable : Representable ◌==◌ conversions shop
unfolding sco.Common.Text.Text-discrete sco.Common.Decimal.decimal sco.Common.Decimal.digits
shop-Representable = record {
  cpu = refl;
  megabytes = 512;
  memory = refl;
  memory_fits = omega arith;
  keys = (tt, tt);
  ports = ((80, refl, refl), tt);
}

docker_runtime-Laws_example :
    Laws ◌==◌
      (docker_runtime conversions docker
        (list_tasks-returns ◌==◌ conversions docker containers docker-ClientLaws))
      (view conversions docker containers)
      (current containers images)
      (Representable ◌==◌ conversions)
docker_runtime-Laws_example =
    docker_runtime-Laws ◌==◌ conversions docker containers docker-ClientLaws

abbrev over_docker : Host → Result Text (Unit {0}) × Host
over_docker =
    reconcile_task ◌==◌ (runtime ◌==◌ conversions docker containers docker-ClientLaws) shop

info_of-Reported_example : Reported conversions shop (
    info_of conversions
      (codes "shop")
      (create_options conversions shop (codes "shop") (
        (80, record { host_ip = codes "127.0.0.1"; host_port = codes "8080" } ∷ []) ∷ [])).settings)
unfolding convert_port_bindings insert sco.Common.Text.Text-discrete
info_of-Reported_example =
    info_of-Reported conversions shop shop-Representable.megabytes shop-Representable.memory
      shop-Representable.memory_fits shop-Representable.keys shop-Representable.ports (codes "shop")
      ((80, record { host_ip = codes "127.0.0.1"; host_port = codes "8080" } ∷ []) ∷ []) _ refl
      (record {
        image = refl;
        cmd = inl refl;
        env = (mem-cons.1 (Or.inl refl), tt);
        port_bindings = refl;
        binds = Perm.refl [];
        nano_cpus = refl;
        memory = refl;
      })
