-- ===== src/ProtocolServer/Handlers.antt =====
-- handleMessage, handleCommand, handleResponse, writeResponse and serveConnection of
-- protocol/pkg/protocolserver/server.go.
pub mod Replies
pub mod Reader
use sco.Common.{
  ℕ, zero, suc, ◌+◌, Bool, true, false, not, List, [], ◌∷◌, ◌++◌, Option, none, some, length, ◌==◌,
  ite, if◌then◌else◌,
}
use sco.Common.Run.{Run, done, panic, ◌>>=◌}
use sco.Common.Result.{Result, ok, err}
use sco.Common.Text.{Text, codes}
use sco.Common.Dict.{nat_key, lookup, delete}
use sco.Protocol
use sco.Protocol.{
  Message, Command, Response, version1, message_type_command, message_type_response, error_text,
  frame_length_invalid, status_invalid_message, zero_message, zero_command,
}
use sco.Protocol.Buffer.{Buffer, bytes}
use sco.Protocol.Encode.{encode_message_into, encode_response_into}
use sco.Protocol.Decode.{decode_message_into, decode_command_into, decode_response}
use sco.Protocol.Frame.{
  Stream, ReadError, FrameError, invalid, read, eof, closed, unexpected_eof, failure,
  read_frame_into,
}
use sco.CommandStore.{Store, ConnCtx, execute}
use sco.ProtocolServer.Connection.{Connection, Attempt, Error, write_frame_on}

-- The buffers that a handler gets from the pools; they may hold anything.
pub record Buffers : Type 0 where
  pub frame : Buffer
  pub payload : Buffer
  pub message : Buffer

-- What one call meets: its buffers, and the network during the write of a response.
pub record Env : Type 0 where
  pub buffers : Buffers
  pub attempt : Attempt

-- The message that carries a response
abbrev pub response_message : List ℕ → Message
response_message payload = record {
  protocol_version = version1;
  flags = 0x00;
  type = message_type_response;
  payload = payload;
}

abbrev failed? : Option Error × Connection → Bool × Connection
failed? (none, c) = (false, c)
failed? (some e, c) = (true, c)

-- Returns true if the connection should be closed.
pub write_response : Env → Connection → Response → Run (Bool × Connection)
write_response env c resp = do
  payload ← encode_response_into resp env.buffers.payload
  data_bytes ← encode_message_into (response_message (bytes payload)) env.buffers.message
  done (failed? (write_frame_on env.attempt c (bytes data_bytes)))

-- &protocol.Response{Code: StatusInvalidMessage, Payload: []byte(text)}
abbrev pub refusal : Text → Response
refusal text = record { req_id = 0; code = status_invalid_message; payload = text }

unfoldable pub handle_response : Env → Connection → Message → Run (Bool × Connection)
handle_response env c msg = do
  r ← decode_response msg
  elim r [
    | err e ↦ write_response env c (refusal (error_text e))
    | ok resp ↦ elim (lookup resp.req_id c.pending_cmds) [
      | none ↦ done (false, c)
      | some waiter ↦ done (
        false,
        record c {
          pending_cmds = delete resp.req_id c.pending_cmds;
          delivered = c.delivered ++ (waiter, resp) ∷ [];
        },
      )
    ]
  ]

-- handleMessage from the decoded message on
pub dispatch : Env → Connection → Message → Run (Bool × Connection)
dispatch env c msg =
    if not (msg.protocol_version == version1)
    then write_response env c (refusal (codes "Only protocol version 1 is supported"))
    else if msg.type == message_type_command
    then done (false, record c { spawned = c.spawned ++ msg ∷ [] })
    else if msg.type == message_type_response
    then handle_response env c msg
    else write_response env c (refusal (codes "Only command and response messages are allowed"))

-- Closes the connection after a frame that could not be read.
on_read_error : Env → Connection → FrameError → Run (Bool × Connection)
on_read_error env c (read e) = done (true, c)
on_read_error env c (invalid e) = do
  (lost, c') ← write_response env c (refusal (error_text e))
  done (true, c')

on_decoded : Env → Connection → Option Protocol.Error × Message → Run (Bool × Connection)
on_decoded env c (some e, msg) = write_response env c (refusal (error_text e))
on_decoded env c (none, msg) = dispatch env c msg

on_frame : Env → Result FrameError Buffer × Stream → Connection → Run (Bool × Connection)
on_frame env (err e, stream) c = on_read_error env (record c { stream = stream }) e
on_frame env (ok frame, stream) c = do
  decoded ← decode_message_into version1 (bytes frame) zero_message
  on_decoded env (record c { stream = stream }) decoded

-- Reads and processes one message; returns true if the connection should be closed. A message from
-- the pool is the zero message.
pub handle_message : Env → Connection → Run (Bool × Connection)
handle_message env c = do r ← read_frame_into env.buffers.frame c.stream; on_frame env r c

-- A nil response is dereferenced.
abbrev with_req_id : ℕ → Option Response → Run Response
with_req_id req_id none = panic
with_req_id req_id (some resp) = done (record resp { req_id = req_id })

on_command : Env → Store → Message → Connection → Option Protocol.Error × Command → Run Connection
on_command env cs msg c (some e, cmd) = do
  (lost, c') ← write_response env c (refusal (error_text e))
  done c'
on_command env cs msg c (none, cmd) = do
  (answered, ctx) ← execute cs c.conn_ctx msg cmd
  resp ← with_req_id cmd.req_id answered
  (lost, c') ← write_response env (record c { conn_ctx = ctx }) resp
  done c'

-- The goroutine of one command.
pub handle_command : Env → Store → Connection → Message → Run Connection
handle_command env cs c msg = do
  decoded ← decode_command_into msg zero_command
  on_command env cs msg c decoded
