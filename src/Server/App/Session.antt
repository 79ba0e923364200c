-- ===== src/Server/App/Session.antt =====
-- What a client sees of the handlers over the life of its connection.
use mathlib.Core.List.{filter}
use sco.Common.{
  ◌<◌, ◌≡◌, ◌⊎◌, refl, ◌≢◌, Bool, true, false, ◌||◌, List, [], ◌∷◌, Option, none, some, ite, arith,
  if◌then◌else◌, ℕ_discrete, if_pos, ◌∙◌,
}
use sco.Common.Run.{Run, done, panic, returns, ◌>>=◌}
use sco.Common.Text.{Text, codes}
use sco.Common.Dict.{nat_key, text_key, same}
use sco.SharedModels.{NodeTask}
use sco.Protocol.{
  Message, Command, Response, server_command_ping, server_command_check_auth,
  server_command_token_auth, server_command_get_tasks, status_code_ok, status_invalid_access_token,
  status_not_authenticated, status_internal_error,
}
use sco.CommandStore.{
  ConnCtx, Store, register_handler, execute, boolean, get_custom_data, set_custom_data, not_found,
}
use sco.CommandStore.CustomData.{get_custom_data-set}
use sco.Server.App.{
  start_sco_server, handle_ping, handle_token_auth, handle_check_auth, handle_get_tasks,
  check_authenticated, authenticated_key, tasks_of, respond,
}
use sco.Server.Config.{Config}

-- The flag that TokenAuth sets is read back.
pub check_authenticated-set :
    (ctx : ConnCtx)
    → check_authenticated (set_custom_data ctx authenticated_key (boolean true)) ≡ done true
unfolding check_authenticated
check_authenticated-set ctx = rw (
  get_custom_data-set ctx authenticated_key authenticated_key (boolean true)
      ∙ if_pos (same authenticated_key authenticated_key) refl (some (boolean true))
          (get_custom_data ctx authenticated_key),
  check_authenticated,
)

pub flag_unset :
    (ctx : ConnCtx)
    → get_custom_data ctx authenticated_key ≡ none
    → check_authenticated ctx ≡ done false
unfolding check_authenticated
flag_unset ctx h = rw (h, check_authenticated)

-- The commands of a connection, one after the other, each with the message that brought it.
pub run_commands : Store → ConnCtx → List (Message × Command) → Run ConnCtx
run_commands s ctx [] = done ctx
run_commands s ctx ((msg, c) ∷ cs) = do (r, ctx') ← execute s ctx msg c; run_commands s ctx' cs

module _ {F : Type 0} (marshal : List (NodeTask F) → Option Text) (cfg : Config F) where
  abbrev pub store : Store
  store = record {
    commands =
        (server_command_ping, handle_ping)
        ∷ (server_command_token_auth, handle_token_auth cfg)
        ∷ (server_command_check_auth, handle_check_auth)
        ∷ (server_command_get_tasks, handle_get_tasks marshal cfg)
        ∷ [];
    middlewares = [];
  }

  -- All four handlers are registered: startScoServer does not panic.
  pub start_sco_server-returns : start_sco_server marshal cfg ≡ done store
  unfolding start_sco_server register_handler ℕ_discrete
  start_sco_server-returns = refl

  -- Is this the command that presents the access token?
  abbrev pub presents : Command → Bool
  presents c =
      ite (same server_command_token_auth c.id) (ite (same c.payload cfg.access_token) true false)
        false

  abbrev pub any_presents : List (Message × Command) → Bool
  any_presents [] = false
  any_presents ((msg, c) ∷ cs) = presents c || any_presents cs

  -- No command panics on a context whose flag can be read.
  execute-ne-panic :
      (ctx : ConnCtx) (msg : Message) (c : Command) (b : Bool)
      → check_authenticated ctx ≡ done b
      → execute store ctx msg c ≢ panic
  unfolding execute handle_ping handle_token_auth handle_check_auth handle_get_tasks
  execute-ne-panic ctx msg c b h = ground arith

  execute-authenticated :
      (ctx : ConnCtx) (msg : Message) (c : Command) (b : Bool) (r : Option Response × ConnCtx)
      → check_authenticated ctx ≡ done b
      → execute store ctx msg c ≡ done r
      → check_authenticated r.1 ≡ done (b || presents c)
  unfolding execute handle_ping handle_token_auth handle_check_auth handle_get_tasks
  execute-authenticated ctx msg c b r h e = ground (arith, check_authenticated-set ctx)

  -- After any commands the connection counts as authenticated exactly if one presented the token.
  run_commands-authenticated :
      (cs : List (Message × Command)) (ctx : ConnCtx) (b : Bool)
      → check_authenticated ctx ≡ done b
      → (ctx' : ConnCtx) × (run_commands store ctx cs ≡ done ctx')
        × (check_authenticated ctx' ≡ done (b || any_presents cs))
  unfolding run_commands
  run_commands-authenticated [] ctx b h = (ctx, refl, ground arith)
  run_commands-authenticated ((msg, c) ∷ cs) ctx b h =
      let (r, e) = returns (execute store ctx msg c) (execute-ne-panic ctx msg c b h) in
      let kept = execute-authenticated ctx msg c b r h e in
      let (ctx', run, flag) = run_commands-authenticated cs r.1 (b || presents c) kept in
      (ctx', rw e run, ground (arith, flag))

  tasks_of-eq-filter :
      (name : Text) (ts : List (NodeTask F))
      → tasks_of name ts ≡ filter (λ (t : NodeTask F). same t.node name) ts
  unfolding tasks_of
  tasks_of-eq-filter name [] = refl
  tasks_of-eq-filter name (t ∷ ts) = ground (arith, tasks_of-eq-filter name ts)

  -- The answer to GetTasks: the node's tasks, in the order of the configuration, as JSON.
  abbrev pub tasks_answer : Text → Response
  tasks_answer name = elim (marshal (filter (λ (t : NodeTask F). same t.node name) cfg.tasks)) [
    | none ↦ respond status_internal_error (codes "failed to serialize tasks")
    | some json ↦ respond status_code_ok json
  ]

  -- GetTasks, by the flag of the connection.
  pub answer_get_tasks :
      (ctx : ConnCtx) (msg : Message) (c : Command) (b : Bool)
      → check_authenticated ctx ≡ done b
      → c.id ≡ server_command_get_tasks
      → execute store ctx msg c
        ≡ done (
          some (
              if b
              then tasks_answer c.payload
              else respond status_not_authenticated (codes "not authenticated")),
          ctx,
        )
  unfolding execute handle_get_tasks
  answer_get_tasks ctx msg c b h e = ground (arith, tasks_of-eq-filter c.payload cfg.tasks)

  -- A flag that is no Boolean makes GetTasks panic.
  pub get_tasks_panics :
      (ctx : ConnCtx) (msg : Message) (c : Command)
      → check_authenticated ctx ≡ panic
      → c.id ≡ server_command_get_tasks
      → execute store ctx msg c ≡ panic
  unfolding execute handle_get_tasks
  get_tasks_panics ctx msg c h e = ground arith

  -- TokenAuth sets the flag for the right token, and changes nothing for another.
  pub answer_token_auth :
      (ctx : ConnCtx) (msg : Message) (c : Command)
      → c.id ≡ server_command_token_auth
      → execute store ctx msg c
        ≡ ite
            (same c.payload cfg.access_token)
            (done (
              some (respond status_code_ok (codes "access token validated")),
              set_custom_data ctx authenticated_key (boolean true),
            ))
            (done (some (respond status_invalid_access_token (codes "invalid access token")), ctx))
  unfolding execute handle_token_auth
  answer_token_auth ctx msg c e = ground arith

  -- CheckAuth tells the flag.
  pub answer_check_auth :
      (ctx : ConnCtx) (msg : Message) (c : Command) (b : Bool)
      → check_authenticated ctx ≡ done b
      → c.id ≡ server_command_check_auth
      → execute store ctx msg c
        ≡ done (
          some (
              if b
              then respond status_code_ok (codes "authenticated")
              else respond status_not_authenticated (codes "not authenticated")),
          ctx,
        )
  unfolding execute handle_check_auth
  answer_check_auth ctx msg c b h e = ground arith

  -- On a new connection, whatever commands came before, GetTasks is answered with the tasks of the
  -- node that it names if one of them presented the access token, and is refused otherwise.
  pub get_tasks_needs_token :
      (ctx : ConnCtx) (cs : List (Message × Command)) (msg : Message) (c : Command)
      → get_custom_data ctx authenticated_key ≡ none
      → c.id ≡ server_command_get_tasks
      → (ctx' : ConnCtx) × (run_commands store ctx cs ≡ done ctx')
        × (execute store ctx' msg c
            ≡ done (
              some (
                  if any_presents cs
                  then tasks_answer c.payload
                  else respond status_not_authenticated (codes "not authenticated")),
              ctx',
            ))
  get_tasks_needs_token ctx cs msg c fresh e =
      let (ctx', run, flag) = run_commands-authenticated cs ctx false (flag_unset ctx fresh) in
      (ctx', run, answer_get_tasks ctx' msg c (any_presents cs) flag e)

  -- A command with an id that has no handler is answered with status 501, and changes nothing.
  pub unknown_command :
      (ctx : ConnCtx) (msg : Message) (c : Command)
      → (c.id ≡ 0) ⊎ (server_command_get_tasks < c.id)
      → execute store ctx msg c ≡ done (some (not_found c.id), ctx)
  unfolding execute
  unknown_command ctx msg c h = ground arith
