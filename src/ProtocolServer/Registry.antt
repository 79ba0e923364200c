-- ===== src/ProtocolServer/Registry.antt =====
-- The connections of a Server (protocol/pkg/protocolserver/server.go): ConnectTo, Disconnect, the
-- accepting and the reconnecting side, and the choice of a connection to send on. Connections are
-- pointers in the code: here numbers of a heap. Each function is one section under connectionsMu.
pub mod Goroutines
pub mod Backoff
pub mod Accepting
use sco.Common.{
  ℕ, ◌+◌, Bool, true, false, List, [], ◌∷◌, Option, none, some, map, if◌then◌else◌, ◌==◌,
}
use sco.Common.Run.{Run, done, ◌>>=◌}
use sco.Common.Result.{Result, ok, err}
use sco.Common.Text.{Text}
use sco.Common.Dict.{text_key, lookup, insert, delete}
use sco.Common.Family.{update}
use sco.Protocol.{Command}
use sco.Protocol.Frame.{Stream, eof}
use sco.CommandStore.{Store, ConnCtx}
use sco.ProtocolServer.Connection.{
  CtxError, Error, client_not_connected, connection_not_found, Connection, Attempt, Waiter,
  new_connection, close,
}
use sco.ProtocolServer.Send.{Caller, Begun, begin_send}

-- `client_cancel` is the number of the context that the cancel function ends.
pub record Server : Type 0 where
  pub port : Text
  pub cs : Store
  pub connections : List (Text × ℕ)
  pub client_conn : Option ℕ
  pub client_cancel : Option ℕ

-- What the goroutines of a program share: the server, the heap of connections and the contexts.
pub record World : Type 0 where
  pub server : Server
  pub peers : ℕ → Connection
  pub next_peer : ℕ
  pub cancelled : ℕ → Bool
  pub next_ctx : ℕ

-- New
abbrev pub new : Text → Store → Server
new port cs = record {
  port = port;
  cs = cs;
  connections = [];
  client_conn = none;
  client_cancel = none;
}

abbrev pub id_of : World → ℕ → Text
id_of w p = (w.peers p).conn_ctx.id

abbrev pub set_peer : ℕ → Connection → World → World
set_peer p c w = record w { peers = update w.peers p c }

-- peer.close()
abbrev pub close_peer : ℕ → World → World
close_peer p w = set_peer p (close (w.peers p)) w

-- if peer != nil { peer.close() }
abbrev pub close_optional : Option ℕ → World → World
close_optional none w = w
close_optional (some p) w = close_peer p w

-- if cancel != nil { cancel() }
abbrev pub cancel : Option ℕ → (ℕ → Bool) → ℕ → Bool
cancel none f = f
cancel (some c) f = update f c true

-- if peer != nil { delete(connections, peer.ID) }
abbrev pub unlist : World → Option ℕ → List (Text × ℕ)
unlist w none = w.server.connections
unlist w (some p) = delete (id_of w p) w.server.connections

-- The locked section of Disconnect; the connection that it took out is closed afterwards.
abbrev pub disconnect : World → Option ℕ × World
disconnect w = (
  w.server.client_conn,
  record w {
    server = record w.server {
      client_cancel = none;
      client_conn = none;
      connections = unlist w w.server.client_conn;
    };
    cancelled = cancel w.server.client_cancel w.cancelled;
  },
)

-- The locked section at the end of serveConnection
abbrev pub retire : ℕ → World → World
retire p w = record w {
  server = record w.server {
    connections = delete (id_of w p) w.server.connections;
    client_conn = elim w.server.client_conn [
      | none ↦ none
      | some q ↦ if q == p then none else some q
    ];
  };
}

-- What a ConnectTo that replaced the outbound connection goes on with.
pub record Replaced : Type 0 where
  pub ctx : ℕ
  pub peer : ℕ
  pub previous : Option ℕ

-- `generate_id` tells the id that idgen.GenerateID returns for each connection.
module _ (generate_id : ℕ → Text) where
  -- newConnection; its number is `w.next_peer`.
  abbrev pub add_peer : Stream → World → World
  add_peer stream w = record w {
    peers = update w.peers w.next_peer (new_connection (generate_id w.next_peer) stream);
    next_peer = w.next_peer + 1;
  }

  -- handleConnection up to serveConnection
  abbrev pub accept : Stream → World → World
  accept stream w =
      let w1 = add_peer stream w in
      record w1 {
        server = record w.server {
          connections = insert (id_of w1 w.next_peer) w.next_peer w.server.connections;
        };
      }

  -- The loop of Start, for what the calls of Accept return: an error is logged, and the loop goes on.
  unfoldable pub accept_all : List (Result Text Stream) → World → World
  accept_all [] w = w
  accept_all (err e ∷ conns) w = accept_all conns w
  accept_all (ok stream ∷ conns) w = accept_all conns (accept stream w)

  -- Start; the first argument is what net.Listen returned.
  abbrev pub start : Result Text (Unit {0}) → List (Result Text Stream) → World → World
  start (err e) conns w = w
  start (ok ln) conns w = accept_all conns w

  -- ConnectTo up to the end of its locked section; the argument is what net.DialTimeout returned.
  abbrev pub connect_to : Result Text Stream → World → Result Text Replaced × World
  connect_to (err e) w = (err e, w)
  connect_to (ok stream) w =
      let w1 = add_peer stream w in
      let listed = unlist w1 w.server.client_conn in
      (
        ok (record { ctx = w.next_ctx; peer = w.next_peer; previous = w.server.client_conn }),
        record w1 {
          server = record w.server {
            client_conn = some w.next_peer;
            client_cancel = some w.next_ctx;
            connections = insert (id_of w1 w.next_peer) w.next_peer listed;
          };
          cancelled = update (cancel w.server.client_cancel w.cancelled) w.next_ctx false;
          next_ctx = w.next_ctx + 1;
        },
      )

  -- reconnect from a successful dial on: is the new connection registered?
  abbrev pub register_reconnected : ℕ → Stream → World → Bool × World
  register_reconnected ctx stream w =
      let w1 = add_peer stream w in
      if w.cancelled ctx then (false, w1) else (
        true,
        record w1 {
          server = record w.server {
            client_conn = some w.next_peer;
            connections = insert (id_of w1 w.next_peer) w.next_peer w.server.connections;
          };
        },
      )

pub get_connection : Text → World → Option ConnCtx
get_connection id w = elim (lookup id w.server.connections) [
  | none ↦ none
  | some p ↦ some (w.peers p).conn_ctx
]

pub get_connections : World → List (Text × ConnCtx)
get_connections w = map (λ e. (e.0, (w.peers e.1).conn_ctx)) w.server.connections

-- The connection that SendCmdContext sends on, and that of SendCmdToContext
unfoldable pub client_target : World → Result Error ℕ
client_target w = elim w.server.client_conn [ none ↦ err client_not_connected | some p ↦ ok p ]

unfoldable pub target_of : Text → World → Result Error ℕ
target_of id w = elim (lookup id w.server.connections) [
  | none ↦ err connection_not_found
  | some p ↦ ok p
]

-- sendCmd up to its select, on the connection that was found
abbrev send_on :
    Option CtxError
    → Caller
    → Attempt
    → Waiter
    → Command
    → Result Error ℕ
    → World
    → Run (Begun × World)
send_on start caller a waiter cmd (err e) w = done (Begun.refused e, w)
send_on start caller a waiter cmd (ok p) w = do
  (begun, c) ← begin_send start caller a (w.peers p) waiter cmd
  done (begun, set_peer p c w)

-- SendCmdContext; with context.Background() it is SendCmd.
pub send_cmd : Option CtxError → Caller → Attempt → Waiter → Command → World → Run (Begun × World)
unfolding client_target
send_cmd start caller a waiter cmd w = send_on start caller a waiter cmd (client_target w) w

-- SendCmdToContext, and SendCmdTo
pub send_cmd_to :
    Text → Option CtxError → Caller → Attempt → Waiter → Command → World → Run (Begun × World)
unfolding target_of
send_cmd_to id start caller a waiter cmd w = send_on start caller a waiter cmd (target_of id w) w
