-- ===== src/Agent/Start/Running.antt =====
-- What runs on a node when NewAgent has returned.
use sco.Common.{◌≡◌, refl, sym, ap, ◌∙◌, List, []}
use sco.Common.Result.{Result, ok, err}
use sco.Common.Text.{Text, codes}
use sco.Common.Dict.{text_key}
use sco.Server.Config.{Config}
use sco.Agent.Exec.{Exec, continue, wrapped, wrapped_ok, bind_ok}
use sco.Agent.Runtime.{TaskConfig}
use sco.Agent.Reconcile.{reconcile, reconcile_tasks}
use sco.Agent.Reconcile.Laws.{Laws}
use sco.Agent.Reconcile.Whole.{reconcile_ok}
use sco.Agent.Commands.{ping, required, authenticate, get_tasks}
use sco.Agent.Start.{
  Configuration, Agent, Parts, init_runtime, reconciled, reconcile_agent, new_agent,
}

-- A reconciliation that the agent has kept: it had a task list, and returned.
reconciled_returned :
    {F W : Type 0} (a b : Agent F) (got : Result Text (List (TaskConfig F)))
    (r : Result Text (Unit {0}) × W)
    → (reconciled a got r).0 ≡ ok b
    → (got ≡ ok b.tasks) × (r.0 ≡ ok tt) × ((reconciled a got r).1 ≡ r.1)
reconciled_returned {F} a b (ok ts) (ok tt, w) h =
    let whole : ◌≡◌ {A = Agent F} (record a { tasks = ts }) b = cc in
    (ap (λ x. ok x.tasks) whole, refl, refl)
reconciled_returned a b (err e) (ok u, w) h = absurd cc
reconciled_returned a b (ok ts) (err e, w) h = absurd cc
reconciled_returned a b (err f) (err e, w) h = absurd cc

module _ {F W : Type 0} (parts : Parts F W) where
  -- Every agent that NewAgent returned has gone through its task list last.
  pub new_agent-loop :
      (conf : Configuration) (w : W) (a : Agent F)
      → (new_agent parts conf w).0 ≡ ok a
      → (v : W) × ((new_agent parts conf w).1 ≡ reconcile_tasks parts.float_eq parts.rt a.tasks v)
  unfolding new_agent
  new_agent-loop conf w a h =
      let blank : Agent F = record {
        node_name = conf.node_name;
        access_token = conf.access_token;
        tasks = [];
      } in
      let last : Exec W (Agent F) =
        λ v. wrapped (codes "error during initial reconcile") (reconcile_agent parts blank v) in
      let auth : Exec W (Unit {0}) = λ v.
        wrapped (codes "error authenticating with server")
          (authenticate parts.send_cmd conf.access_token v) in
      let k3 : Unit {0} → Exec W (Agent F) = λ _ v. continue (auth v) (λ _. last) in
      let pinged : Exec W (Unit {0}) =
        λ v. required parts.send_cmd (codes "error pinging server") (ping parts.send_cmd v) in
      let k2 : Unit {0} → Exec W (Agent F) = λ _ v. continue (pinged v) k3 in
      let connected : Exec W (Unit {0}) =
        λ v. wrapped (codes "error connecting to server") (parts.connect_to conf.endpoint v) in
      let k1 : Unit {0} → Exec W (Agent F) = λ _ v. continue (connected v) k2 in
      let (_, _, h1, e1) = bind_ok (init_runtime parts conf.runtime w) k1 a h in
      let w1 = (init_runtime parts conf.runtime w).1 in
      let (_, _, h2, e2) = bind_ok (connected w1) k2 a h1 in
      let w2 = (connected w1).1 in
      let (_, _, h3, e3) = bind_ok (pinged w2) k3 a h2 in
      let w3 = (pinged w2).1 in
      let (_, _, h4, e4) = bind_ok (auth w3) (λ _. last) a h3 in
      let w4 = (auth w3).1 in
      let got = get_tasks parts.send_cmd parts.unmarshal blank.node_name w4 in
      let rest = reconcile parts.float_eq parts.rt got.0 got.1 in
      let plain =
        wrapped_ok (codes "error during initial reconcile") (reconciled blank got.0 rest) a h4 in
      let (listed, returned, world) =
        reconciled_returned blank a got.0 rest (sym (ap (λ x. x.0) plain) ∙ h4) in
      let whole : rest ≡ reconcile parts.float_eq parts.rt (ok a.tasks) got.1 =
        ap (λ g. reconcile parts.float_eq parts.rt g got.1) listed in
      let (v, loop) =
        reconcile_ok parts.float_eq parts.rt a.tasks got.1 (sym (ap (λ r. r.0) whole) ∙ returned) in
      (
        v,
        ap (λ r. r.1) e1
            ∙ ap (λ r. r.1) e2
            ∙ ap (λ r. r.1) e3
            ∙ ap (λ r. r.1) e4
            ∙ ap (λ r. r.1) plain
            ∙ world
            ∙ ap (λ r. r.1) whole
            ∙ loop,
      )
