-- ===== src/Server/App.antt =====
-- server/cmd/app/main.go: the command handlers and their registration.
pub mod Session
use sco.Common.{
  ℕ, Bool, true, false, not, List, [], ◌∷◌, ◌++◌, Option, none, some, ite, if◌then◌else◌,
}
use sco.Common.Run.{Run, done, panic, ◌>>=◌}
use sco.Common.Text.{Text, codes, Text-discrete}
use sco.Common.Dict.{text_key, same}
use sco.SharedModels.{NodeTask}
use sco.Server.Config.{Config}
use sco.Protocol.{
  Message, Command, Response, status_code_ok, status_invalid_access_token, status_not_authenticated,
  status_internal_error, server_command_ping, server_command_token_auth, server_command_check_auth,
  server_command_get_tasks,
}
use sco.CommandStore.{
  Any, boolean, other, ConnCtx, Handler, Store, StoreError, new, register_handler, get_custom_data,
  set_custom_data,
}

abbrev pub authenticated_key : Text
authenticated_key = codes "authenticated"

-- &protocol.Response{Code: code, Payload: []byte(text)}
abbrev pub respond : ℕ → Text → Response
respond code text = record { req_id = 0; code = code; payload = text }

abbrev pub reply : Response → Option Response × Option Text
reply r = (some r, none)

unfoldable pub handle_ping : Handler
handle_ping ctx msg cmd = done (reply (respond status_code_ok (codes "pong")), ctx)

-- authenticated.(bool), which panics on any other type
abbrev pub as_bool : Any → Run Bool
as_bool (boolean b) = done b
as_bool (other v) = panic

unfoldable pub check_authenticated : ConnCtx → Run Bool
check_authenticated ctx = elim (get_custom_data ctx authenticated_key) [
  | none ↦ done false
  | some v ↦ as_bool v
]

unfoldable pub handle_check_auth : Handler
handle_check_auth ctx msg cmd = do
  authenticated ← check_authenticated ctx
  if not authenticated
      then done (reply (respond status_not_authenticated (codes "not authenticated")), ctx)
      else done (reply (respond status_code_ok (codes "authenticated")), ctx)

-- if err != nil { panic(err) }
abbrev must : Option StoreError × Store → Run Store
must (none, s) = done s
must (some e, s) = panic

module _ {F : Type 0} where
  unfoldable pub handle_token_auth : Config F → Handler
  handle_token_auth cfg ctx msg cmd =
      ite (same cmd.payload cfg.access_token)
        (done (
          reply (respond status_code_ok (codes "access token validated")),
          set_custom_data ctx authenticated_key (boolean true),
        ))
        (done (reply (respond status_invalid_access_token (codes "invalid access token")), ctx))

  -- The loop over cfg.Tasks
  unfoldable pub tasks_of : Text → List (NodeTask F) → List (NodeTask F)
  tasks_of node_name [] = []
  tasks_of node_name (t ∷ ts) =
      ite (same t.node node_name) (t ∷ tasks_of node_name ts) (tasks_of node_name ts)

  -- `marshal` is json.Marshal on a list of tasks; `none` is its error.
  unfoldable pub handle_get_tasks : (List (NodeTask F) → Option Text) → Config F → Handler
  handle_get_tasks marshal cfg ctx msg cmd = do
    authenticated ← check_authenticated ctx
    if not authenticated
        then done (reply (respond status_not_authenticated (codes "not authenticated")), ctx)
        else elim (marshal (tasks_of cmd.payload cfg.tasks)) [
          | none ↦
              done (reply (respond status_internal_error (codes "failed to serialize tasks")), ctx)
          | some tasks_json ↦ done (reply (respond status_code_ok tasks_json), ctx)
        ]

  -- The command store that startScoServer fills and hands to the server.
  unfoldable pub start_sco_server : (List (NodeTask F) → Option Text) → Config F → Run Store
  start_sco_server marshal cfg = do
    s1 ← must (register_handler server_command_ping handle_ping new)
    s2 ← must (register_handler server_command_token_auth (handle_token_auth cfg) s1)
    s3 ← must (register_handler server_command_check_auth handle_check_auth s2)
    must (register_handler server_command_get_tasks (handle_get_tasks marshal cfg) s3)
