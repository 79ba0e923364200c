-- ===== src/ProtocolServer/Connection.antt =====
-- protocol/pkg/protocolserver/connection.go, and the errors of errors.go.
-- Times are left out: LastActivity is never read, and a deadline shows only in its outcome.
pub mod Framing
pub mod Outcome
pub mod Table
use sco.Common.{ℕ, Bool, true, false, List, [], ◌++◌, Option, none, some, if◌then◌else◌}
use sco.Common.Text.{Text}
use sco.Protocol.{Message, Response}
use sco.Protocol.Frame.{Stream, Writer, WriteError, Written, finished, failed, stuck, write_frame}
use sco.CommandStore.{ConnCtx}

-- context.Canceled and context.DeadlineExceeded
pub data CtxError : Type 0 where
  canceled deadline_exceeded : CtxError

pub data Error : Type 0 where
  context : CtxError → Error
  write : WriteError → Error
  command_timeout : Error
  client_not_connected : Error
  connection_not_found : Error
  connection_closed : Error

-- A channel that a sender waits on, by its number.
abbrev pub Waiter : Type 0
Waiter = ℕ

-- `closed` is the cancelled Ctx. The last three fields record what the connection's goroutines have
-- done: the bytes on the wire, the commands handed to goroutines, the responses sent to channels.
pub record Connection : Type 0 where
  pub conn_ctx : ConnCtx
  pub stream : Stream
  pub closed : Bool
  pub request_id_counter : ℕ  -- atomic.Uint32
  pub pending_cmds : List (ℕ × Waiter)
  pub sent : List ℕ
  pub spawned : List Message
  pub delivered : List (Waiter × Response)

-- newConnection; the id is the one that idgen.GenerateID returned.
abbrev pub new_connection : Text → Stream → Connection
new_connection id stream = record {
  conn_ctx = record { id = id; last_activity = 0; custom_data = none };
  stream = stream;
  closed = false;
  request_id_counter = 0;
  pending_cmds = [];
  sent = [];
  spawned = [];
  delivered = [];
}

-- closeOnce.Do(…)
unfoldable pub close : Connection → Connection
close c = if c.closed then c else record c { closed = true; pending_cmds = [] }

-- What the network and the clock do during one writeFrame: ctx.Err() before and after the write,
-- the result of SetWriteDeadline, and the writes themselves.
pub record Attempt : Type 0 where
  pub ctx_before : Option CtxError
  pub set_deadline : Option WriteError
  pub writer : Writer
  pub ctx_after : Option CtxError

abbrev or_context : Option CtxError → Error → Error
or_context (some e) other = context e
or_context none other = other

-- The rest of writeFrame after protocol.V1.WriteFrame
abbrev after_frame : Attempt → Connection → Written × List ℕ → Option Error × Connection
after_frame a c (finished, out) = (none, record c { sent = c.sent ++ out })
after_frame a c (failed e, out) =
    (some (or_context a.ctx_after (write e)), close (record c { sent = c.sent ++ out }))
after_frame a c (stuck, out) = (none, c)

-- writeFrame, by a goroutine that got the write lock.
unfoldable pub write_frame_on : Attempt → Connection → List ℕ → Option Error × Connection
unfolding close
write_frame_on a c bytes = elim a.ctx_before [
  | some e ↦ (some (context e), c)
  | none ↦ if c.closed then (some connection_closed, c) else elim a.set_deadline [
    | some e ↦ (some (write e), close c)
    | none ↦ after_frame a c (write_frame a.writer bytes)
  ]
]
