-- ===== src/Agent/Start/Ready.antt =====
-- An agent that NewAgent returned, against the server's handlers.
use mathlib.Core.List.{filter}
use sco.Common.{ℕ, ◌≡◌, sym, ap, ◌∙◌, List, [], map, Option, some, arith}
use sco.Common.Result.{Result, ok, err}
use sco.Common.Text.{Text, codes}
use sco.Common.Dict.{text_key, same}
use sco.SharedModels.{NodeTask}
use sco.Protocol.{Command, Response}
use sco.CommandStore.{ConnCtx}
use sco.Server.Config.{Config}
use sco.Agent.Exec.{Exec, continue, wrapped, wrapped_ok, bind_ok}
use sco.Agent.Runtime.{TaskConfig}
use sco.Agent.Reconcile.{reconcile}
use sco.Agent.Commands.{ping, required, token_auth, check_auth, authenticate, get_tasks, to_config}
use sco.Agent.Commands.Network.{Call, loopback}
use sco.Agent.Commands.Fetching.{get_tasks-loopback}
use sco.Agent.Commands.Loopback.{authenticate_iff}
use sco.Agent.Start.{
  Configuration, Agent, Parts, init_runtime, reconciled, reconcile_agent, new_agent,
}

-- SendCmd changes the connection's side of the world only.
abbrev pub on_connection :
    {C H : Type 0} → (Command → Exec C Response) → Command → Exec (C × H) Response
on_connection send c (ctx, h) = let r = send c ctx in (r.0, (r.1, h))

-- A call on the connection, with the other side of the world beside it
abbrev beside : {C H A : Type 0} → H → Result Text A × C → Result Text A × (C × H)
beside h r = (r.0, (r.1, h))

module _ {C H : Type 0} (send : Command → Exec C Response) where
  authenticate-beside :
      (token : Text) (ctx : C) (h : H)
      → authenticate (on_connection send) token (ctx, h) ≡ beside h (authenticate send token ctx)
  unfolding authenticate token_auth check_auth
  authenticate-beside token ctx h = ground arith

  get_tasks-beside :
      {F : Type 0} (unmarshal : Text → Result Text (List (NodeTask F))) (name : Text) (ctx : C)
      (h : H)
      → get_tasks (on_connection send) unmarshal name (ctx, h)
        ≡ beside h (get_tasks send unmarshal name ctx)
  unfolding get_tasks
  get_tasks-beside unmarshal name ctx h = ground arith

reconciled_ok :
    {F W : Type 0} (a b : Agent F) (got : Result Text (List (TaskConfig F)))
    (r : Result Text (Unit {0}) × W)
    → (reconciled a got r).0 ≡ ok b
    → got ≡ ok b.tasks
reconciled_ok {F} a b (ok ts) (ok u, w) h =
    let whole : ◌≡◌ {A = Agent F} (record a { tasks = ts }) b = cc in ap (λ x. ok x.tasks) whole
reconciled_ok a b (err e) (ok u, w) h = absurd cc
reconciled_ok a b (ok ts) (err e, w) h = absurd cc
reconciled_ok a b (err f) (err e, w) h = absurd cc

module _ {F H : Type 0} (marshal : List (NodeTask F) → Option Text) (cfg : Config F)
    (calls : ℕ → Call) (parts : Parts F ((ConnCtx × ℕ) × H)) where
  -- The agent whose connection leads to the server's handlers
  abbrev pub served : Parts F ((ConnCtx × ℕ) × H)
  served = record parts { send_cmd = on_connection (loopback marshal cfg calls) }

  abbrev send : Command → Exec (ConnCtx × ℕ) Response
  send = loopback marshal cfg calls

  abbrev own_tasks : Text → List (NodeTask F)
  own_tasks name = filter (λ (t : NodeTask F). same t.node name) cfg.tasks

  -- The call of authenticate, and what comes behind it
  abbrev authenticated : Text → Exec ((ConnCtx × ℕ) × H) (Unit {0})
  authenticated token w =
      wrapped (codes "error authenticating with server") (authenticate (on_connection send) token w)

  abbrev last_step : Agent F → Exec ((ConnCtx × ℕ) × H) (Agent F)
  last_step blank w =
      wrapped (codes "error during initial reconcile") (reconcile_agent served blank w)

  authenticated_once :
      (token : Text) (w : ConnCtx × ℕ) (h : H)
      → (authenticated token (w, h)).0 ≡ ok tt
      → token ≡ cfg.access_token
  authenticated_once token (ctx, i) h e =
      let r = authenticate (on_connection send) token ((ctx, i), h) in
      let plain = wrapped_ok (codes "error authenticating with server") r tt e in
      let moved = plain ∙ authenticate-beside send token (ctx, i) h in
      ((authenticate_iff marshal cfg calls ctx i token).0 (sym (ap (λ x. x.0) moved) ∙ e)).0

  got_tasks :
      (blank a : Agent F) (w : ConnCtx × ℕ) (h : H) (json : Text)
      → marshal (own_tasks blank.node_name) ≡ some json
      → parts.unmarshal json ≡ ok (own_tasks blank.node_name)
      → (last_step blank (w, h)).0 ≡ ok a
      → a.tasks ≡ map to_config (own_tasks blank.node_name)
  got_tasks blank a (ctx, i) h json hm hu e =
      let got = get_tasks (on_connection send) parts.unmarshal blank.node_name ((ctx, i), h) in
      let rest = reconcile parts.float_eq parts.rt got.0 got.1 in
      let plain =
        wrapped_ok (codes "error during initial reconcile") (reconciled blank got.0 rest) a e in
      let kept = reconciled_ok blank a got.0 rest (sym (ap (λ x. x.0) plain) ∙ e) in
      get_tasks-loopback marshal cfg calls parts.unmarshal ctx i blank.node_name json a.tasks hm hu
        (sym (ap (λ x. x.0) (get_tasks-beside send parts.unmarshal blank.node_name (ctx, i) h))
          ∙ kept)

  -- Over calls of SendCmd that may fail and connections that may be replaced: an agent that NewAgent
  -- returned has the server's access token, and holds the tasks of its node, in the order of the
  -- server's configuration, if JSON carries them over.
  pub new_agent-ready :
      (conf : Configuration) (w : (ConnCtx × ℕ) × H) (a : Agent F) (json : Text)
      → marshal (filter (λ (t : NodeTask F). same t.node conf.node_name) cfg.tasks) ≡ some json
      → parts.unmarshal json
        ≡ ok (filter (λ (t : NodeTask F). same t.node conf.node_name) cfg.tasks)
      → (new_agent served conf w).0 ≡ ok a
      → (conf.access_token ≡ cfg.access_token)
        × (a.tasks
            ≡ map to_config (filter (λ (t : NodeTask F). same t.node conf.node_name) cfg.tasks))
  unfolding new_agent
  new_agent-ready conf w a json hm hu h =
      let blank : Agent F = record {
        node_name = conf.node_name;
        access_token = conf.access_token;
        tasks = [];
      } in
      let k4 : Unit {0} → Exec ((ConnCtx × ℕ) × H) (Agent F) = λ _ v. last_step blank v in
      let auth = authenticated conf.access_token in
      let k3 : Unit {0} → Exec ((ConnCtx × ℕ) × H) (Agent F) = λ _ v. continue (auth v) k4 in
      let pinged : Exec ((ConnCtx × ℕ) × H) (Unit {0}) = λ v.
        required (on_connection send) (codes "error pinging server")
          (ping (on_connection send) v) in
      let k2 : Unit {0} → Exec ((ConnCtx × ℕ) × H) (Agent F) = λ _ v. continue (pinged v) k3 in
      let connected : Exec ((ConnCtx × ℕ) × H) (Unit {0}) =
        λ v. wrapped (codes "error connecting to server") (parts.connect_to conf.endpoint v) in
      let k1 : Unit {0} → Exec ((ConnCtx × ℕ) × H) (Agent F) = λ _ v. continue (connected v) k2 in
      let (_a, e1, h1, _b) = bind_ok (init_runtime served conf.runtime w) k1 a h in
      let w1 = (init_runtime served conf.runtime w).1 in
      let (_c, e2, h2, _d) = bind_ok (connected w1) k2 a h1 in
      let w2 = (connected w1).1 in
      let (_e, e3, h3, _f) = bind_ok (pinged w2) k3 a h2 in
      let w3 = (pinged w2).1 in
      let (_g, e4, h4, _h) = bind_ok (auth w3) k4 a h3 in
      let w4 = (auth w3).1 in
      (authenticated_once conf.access_token w3.0 w3.1 e4, got_tasks blank a w4.0 w4.1 json hm hu h4)
