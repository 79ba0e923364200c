-- ===== src/ProtocolServer/Send/Rpc.antt =====
-- A command from one peer to the other and its response back, byte for byte.
use sco.Common.{
  ℕ, ◌+◌, ◌^◌, ◌≤◌, ◌<◌, ◌≡◌, refl, sym, ◌∙◌, false, List, [], ◌∷◌, ◌++◌, none, some, length, arith,
  append-nil,
}
use sco.Common.Run.{done}
use sco.Common.Dict.{nat_key, lookup, delete, lookup-insert_self}
use sco.Protocol.{Message, Command, Response, max_frame_size}
use sco.Protocol.Layout.{command_layout, response_layout, IsSendable, ResponseFits}
use sco.CommandStore.{Store, ConnCtx, execute}
use sco.ProtocolServer.Connection.{Connection, Attempt, Waiter}
use sco.ProtocolServer.Handlers.{Env, response_message, handle_message, handle_command}
use sco.ProtocolServer.Handlers.Replies.{
  Succeeds, response_wire, handle_message-wire, handle_response-pending, handle_command-answers,
  dispatch-command, dispatch-response,
}
use sco.ProtocolServer.Send.{Caller, waiting, command_message, begin_send}
use sco.ProtocolServer.Send.Begin.{command_wire, enrolled, begin_send-Succeeds}

-- A connection whose stream holds just these bytes next.
abbrev pub receiving : List ℕ → Connection → Connection
receiving xs c = record c { stream = record c.stream { input = xs } }

-- The length of what a record adds to its payload.
record_size : (c : Command) → length (command_layout c) ≡ length c.payload + 10
record_size c = omega arith

response_size : (r : Response) → length (response_layout r) ≡ length r.payload + 10
response_size r = omega arith

command_message-IsSendable :
    (c : Command)
    → length c.payload + 18 ≤ max_frame_size
    → IsSendable (command_message (command_layout c))
command_message-IsSendable c h = record {
  version = refl;
  known_type = omega arith;
  not_empty = omega arith;
  fits = omega arith;
}

response_message-IsSendable :
    (r : Response)
    → length r.payload + 18 ≤ max_frame_size
    → IsSendable (response_message (response_layout r))
response_message-IsSendable r h = record {
  version = refl;
  known_type = omega arith;
  not_empty = omega arith;
  fits = omega arith;
}

-- The receiving side of a command: its message is spawned, and nothing else changes.
command_arrives :
    (env : Env) (s : Connection) (cmd : Command)
    → length cmd.payload + 18 ≤ max_frame_size
    → handle_message env (receiving (command_wire cmd) s)
      ≡ done (
        false,
        record (receiving [] s) {
          spawned = s.spawned ++ command_message (command_layout cmd) ∷ [];
        },
      )
command_arrives env s cmd h =
    handle_message-wire env (receiving (command_wire cmd) s) (command_message (command_layout cmd))
      [] (sym (append-nil (command_wire cmd))) (command_message-IsSendable cmd h) (omega arith)
    ∙ dispatch-command env (receiving [] s) (command_message (command_layout cmd)) refl refl

-- The receiving side of a response that a waiter waits for.
response_arrives :
    (env : Env) (c : Connection) (r : Response) (w : Waiter)
    → length r.payload + 18 ≤ max_frame_size
    → ResponseFits r
    → lookup r.req_id c.pending_cmds ≡ some w
    → handle_message env (receiving (response_wire r) c)
      ≡ done (
        false,
        record (receiving [] c) {
          pending_cmds = delete r.req_id c.pending_cmds;
          delivered = c.delivered ++ (w, r) ∷ [];
        },
      )
response_arrives env c r w h fits e =
    handle_message-wire env (receiving (response_wire r) c) (response_message (response_layout r))
      [] (sym (append-nil (response_wire r))) (response_message-IsSendable r h) (omega arith)
    ∙ dispatch-response env (receiving [] c) (response_message (response_layout r)) refl refl
    ∙ handle_response-pending env (receiving [] c) (response_message (response_layout r)) r w refl
        fits e

-- The two ends of one command: the client that sends it, and the server that handles it.
pub record Peers : Type 0 where
  pub client : Connection
  pub server : Connection

-- What the run of one command comes to: the client waits under a fresh id; the server, given the
-- client's bytes, spawns the command and writes its answer; and the client, given the server's
-- bytes, hands the response to the waiter of the command and to nobody else.
pub record Answered (p : Peers) (a : Attempt) (caller : Caller) (asked answering got : Env)
    (cs : Store) (w : Waiter) (cmd : Command) (r : Response) (ctx : ConnCtx) : Type 0 where
  pub id : ℕ
  pub fresh : lookup id p.client.pending_cmds ≡ none
  pub waiting_client : Connection
  pub begun : begin_send none caller a p.client w cmd ≡ done (waiting id, waiting_client)
  pub out : List ℕ
  pub sent_out : waiting_client.sent ≡ p.client.sent ++ out
  pub message : Message
  pub spawning_server : Connection
  pub arrived : handle_message asked (receiving out p.server) ≡ done (false, spawning_server)
  pub spawned : spawning_server.spawned ≡ p.server.spawned ++ message ∷ []
  pub answered_server : Connection
  pub handled : handle_command answering cs spawning_server message ≡ done answered_server
  pub context : answered_server.conn_ctx ≡ ctx
  pub back : List ℕ
  pub sent_back : answered_server.sent ≡ p.server.sent ++ back
  pub served_client : Connection
  pub returned : handle_message got (receiving back waiting_client) ≡ done (false, served_client)
  pub delivered : served_client.delivered ≡ p.client.delivered ++ (w, record r { req_id = id }) ∷ []

-- Between two open peers on connections that are up, and with fewer than 2^32 commands pending, a
-- command whose frame is at most 512 MB, and whose handler answers with an `r` that fits one frame
-- too, brings `r` to its own waiter, whatever the pooled buffers held and however the writes were
-- split.
pub begin_send-Answered :
    (p : Peers) (a : Attempt) (caller : Caller) (asked answering got : Env) (cs : Store)
    (w : Waiter) (cmd : Command) (r : Response) (ctx : ConnCtx)
    → p.client.closed ≡ false
    → p.server.closed ≡ false
    → length p.client.pending_cmds < 2 ^ 32
    → Succeeds a
    → Succeeds answering.attempt
    → cmd.id < 2 ^ 16
    → length cmd.payload + 18 ≤ max_frame_size
    → r.code < 2 ^ 16
    → length r.payload + 18 ≤ max_frame_size
    → ((m : Message) (c : Command)
        → c.id ≡ cmd.id
        → c.payload ≡ cmd.payload
        → execute cs p.server.conn_ctx m c ≡ done (some r, ctx))
    → Answered p a caller asked answering got cs w cmd r ctx
begin_send-Answered p a caller asked answering got cs w cmd r ctx client_open server_open few up up'
      hid hsize hcode hrsize runs =
    let (id, small, fresh, begun) =
      begin_send-Succeeds caller a p.client w cmd up client_open few in
    let sent_cmd : Command = record cmd { req_id = id } in
    let reply : Response = record r { req_id = id } in
    let m : Message = command_message (command_layout sent_cmd) in
    let waiting_client : Connection = record (enrolled id w p.client) {
      sent = p.client.sent ++ command_wire sent_cmd;
    } in
    let spawning : Connection = record (receiving [] p.server) {
      spawned = p.server.spawned ++ m ∷ [];
    } in
    record {
      id = id;
      fresh = fresh;
      waiting_client = waiting_client;
      begun = begun;
      out = command_wire sent_cmd;
      sent_out = refl;
      message = m;
      spawning_server = spawning;
      arrived = command_arrives asked p.server sent_cmd hsize;
      spawned = refl;
      answered_server = record spawning {
        conn_ctx = ctx;
        sent = p.server.sent ++ response_wire reply;
      };
      handled =
          handle_command-answers answering cs spawning m sent_cmd r ctx refl
            (record { req_id = small; id = hid; payload = omega arith }) (runs m sent_cmd refl refl)
            up' server_open;
      context = refl;
      back = response_wire reply;
      sent_back = refl;
      served_client = record (receiving [] waiting_client) {
        pending_cmds = delete id waiting_client.pending_cmds;
        delivered = p.client.delivered ++ (w, reply) ∷ [];
      };
      returned =
          response_arrives got waiting_client reply w hrsize
            (record { req_id = small; code = hcode; payload = omega arith })
            (lookup-insert_self id id w p.client.pending_cmds refl);
      delivered = refl;
    }
