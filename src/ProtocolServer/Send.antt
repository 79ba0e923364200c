-- ===== src/ProtocolServer/Send.antt =====
-- sendCmd and commandError of protocol/pkg/protocolserver/server.go.
pub mod Begin
pub mod Leaks
pub mod Rpc
use sco.Common.{ℕ, suc, Bool, true, false, List, Option, none, some, length, if◌then◌else◌}
use sco.Common.Run.{Run, done, ◌>>=◌}
use sco.Common.Result.{Result, ok, err}
use sco.Common.Dict.{nat_key, insert, delete}
use sco.Protocol.{Message, Command, Response, version1, message_type_command}
use sco.Protocol.Buffer.{bytes}
use sco.Protocol.Encode.{encode_command, encode_message}
use sco.Protocol.Frame
use sco.ProtocolServer.Connection.{
  CtxError, deadline_exceeded, Error, context, write, command_timeout, connection_closed, Waiter,
  Connection, Attempt, write_frame_on,
}
use sco.ProtocolServer.RequestIds.{next_request_id}

-- The caller's context when the error is looked at: its Err(), and whether its deadline passed.
pub record Caller : Type 0 where
  pub ctx_err : Option CtxError
  pub past_deadline : Bool

-- Is it context.DeadlineExceeded, or a net.Error that is a timeout?
abbrev is_timeout : Error → Bool
is_timeout (context deadline_exceeded) = true
is_timeout (write Frame.WriteError.deadline_exceeded) = true
is_timeout e = false

unfoldable pub command_error : Caller → Error → Error
command_error caller e = elim caller.ctx_err [
  | some reason ↦ context reason
  | none ↦
      if is_timeout e
      then (if caller.past_deadline then context deadline_exceeded else command_timeout)
      else e
]

-- The message of a command
abbrev pub command_message : List ℕ → Message
command_message payload = record {
  protocol_version = version1;
  flags = 0x00;
  type = message_type_command;
  payload = payload;
}

-- How the part of sendCmd before its select ends: with an error, or waiting under a request id.
-- `searching` stands for a search for an id that has not ended.
pub data Begun : Type 0 where
  refused : Error → Begun
  waiting : ℕ → Begun
  searching : Begun

-- The deferred delete of the pending entry
abbrev pub forget : ℕ → Connection → Connection
forget req_id c = record c { pending_cmds = delete req_id c.pending_cmds }

unfoldable pub written : Caller → ℕ → Option Error × Connection → Begun × Connection
written caller req_id (some e, c) = (refused (command_error caller e), forget req_id c)
written caller req_id (none, c) = (waiting req_id, c)

-- The waiter is registered under its id, and the command goes out.
unfoldable pub send_with_id :
    Caller → Attempt → Connection → Waiter → Command → ℕ → Run (Begun × Connection)
send_with_id caller a c waiter cmd req_id = do
  payload ← encode_command (record cmd { req_id = req_id })
  cmd_data ← encode_message (command_message (bytes payload))
  let c' = record c {
    request_id_counter = req_id;
    pending_cmds = insert req_id waiter c.pending_cmds;
  }
  done (written caller req_id (write_frame_on a c' (bytes cmd_data)))

-- sendCmd up to its select; `start` is requestCtx.Err() at the start, and `waiter` the new channel.
unfoldable pub begin_send :
    Option CtxError → Caller → Attempt → Connection → Waiter → Command → Run (Begun × Connection)
begin_send start caller a c waiter cmd = elim start [
  | some e ↦ done (refused (context e), c)
  | none ↦
      if c.closed
      then done (refused connection_closed, c)
      else elim (next_request_id (suc (length c.pending_cmds)) c.request_id_counter
          c.pending_cmds) [
            | none ↦ done (searching, c)
            | some req_id ↦ send_with_id caller a c waiter cmd req_id
          ]
]

-- Which case of the select was ready.
pub data Ready : Type 0 where
  received : Response → Ready
  ctx_done : CtxError → Ready
  conn_done : Ready

-- The select of sendCmd, and its deferred delete.
unfoldable pub end_send : Caller → ℕ → Ready → Connection → Result Error Response × Connection
end_send caller req_id (received resp) c = (ok resp, forget req_id c)
end_send caller req_id (ctx_done e) c = (err (command_error caller (context e)), forget req_id c)
end_send caller req_id conn_done c = (err connection_closed, forget req_id c)
