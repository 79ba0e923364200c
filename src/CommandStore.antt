-- ===== src/CommandStore.antt =====
-- protocol/pkg/protocolcommandstore: the context of a connection (model.go), and the store of
-- command handlers and middlewares with its dispatch (store.go, errors.go).
-- The locks are not modelled: each method holds its lock from its first line to its last.
pub mod Dispatch
pub mod CustomData
use mathlib.Core.List.{foldl, reverse}
use sco.Common.{ℕ, Bool, List, [], ◌∷◌, ◌++◌, Option, none, some}
use sco.Common.Run.{Run, done, panic, ◌>>=◌}
use sco.Common.Text.{Text, codes}
use sco.Common.Dict.{nat_key, text_key, lookup, insert, delete}
use sco.Common.Decimal.{decimal}
use sco.Protocol.{Message, Command, Response, status_command_not_found, status_internal_error}

-- A value of type `any`: a bool, or one of another dynamic type.
pub data Any : Type 0 where
  boolean : Bool → Any
  other : ℕ → Any

-- ConnCtx without its net.Conn and its context.Context, which belong to the server's model.
pub record ConnCtx : Type 0 where
  pub id : Text
  pub last_activity : ℕ
  pub custom_data : Option (List (Text × Any))  -- none is the nil map

unfoldable pub get_custom_data : ConnCtx → Text → Option Any
unfolding lookup
get_custom_data c key = elim c.custom_data [ none ↦ none | some m ↦ lookup key m ]

unfoldable pub set_custom_data : ConnCtx → Text → Any → ConnCtx
unfolding insert
set_custom_data c key value =
    let m : List (Text × Any) = elim c.custom_data [ none ↦ [] | some m ↦ m ] in
    record c { custom_data = some (insert key value m) }

pub delete_custom_data : ConnCtx → Text → ConnCtx
unfolding delete
delete_custom_data c key = elim c.custom_data [
  | none ↦ c
  | some m ↦ record c { custom_data = some (delete key m) }
]

-- What a handler returns: a response or nil, and an error, by its text, or nil. A handler may write
-- to the context, and it may panic.
abbrev pub Handler : Type 0
Handler = ConnCtx → Message → Command → Run ((Option Response × Option Text) × ConnCtx)

abbrev pub Middleware : Type 0
Middleware = Handler → Handler

pub record Store : Type 0 where
  pub commands : List (ℕ × Handler)
  pub middlewares : List Middleware

pub data StoreError : Type 0 where
  command_already_registered : StoreError

abbrev pub new : Store
new = record { commands = []; middlewares = [] }

unfoldable pub register_handler : ℕ → Handler → Store → Option StoreError × Store
unfolding lookup insert
register_handler cmd handler s = elim (lookup cmd s.commands) [
  | some _ ↦ (some command_already_registered, s)
  | none ↦ (none, record s { commands = insert cmd handler s.commands })
]

pub register_middleware : Middleware → Store → Store
register_middleware middleware s = record s { middlewares = s.middlewares ++ middleware ∷ [] }

-- for _, v := range slices.Backward(s.middlewares) { handler = v(handler) }
unfoldable pub wrap : List Middleware → Handler → Handler
wrap middlewares handler = foldl (λ h v. v h) handler (reverse middlewares)

-- The response to a command that no handler is registered for
abbrev pub not_found : ℕ → Response
not_found id = record {
  req_id = 0;
  code = status_command_not_found;
  payload = codes "command with ID " ++ (decimal id ++ codes " not found");
}

-- The response to a handler's error
abbrev pub internal_error : Text → Response
internal_error text = record {
  req_id = 0;
  code = status_internal_error;
  payload = codes "internal server error: " ++ text;
}

-- if err != nil { return an internal error }; return response
abbrev pub answer : Option Response × Option Text → Option Response
answer (response, none) = response
answer (response, some text) = some (internal_error text)

-- The result is nil where the handler returned nil and no error.
unfoldable pub execute : Store → ConnCtx → Message → Command → Run (Option Response × ConnCtx)
unfolding lookup wrap
execute s ctx msg cmd = elim (lookup cmd.id s.commands) [
  | none ↦ done (some (not_found cmd.id), ctx)
  | some handler ↦ do (r, ctx') ← wrap s.middlewares handler ctx msg cmd; done (answer r, ctx')
]
