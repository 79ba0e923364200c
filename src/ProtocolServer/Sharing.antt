-- ===== src/ProtocolServer/Sharing.antt =====
-- The goroutines that share one connection as interleaved steps: callers of sendCmd, the loop that
-- reads, and close (protocol/pkg/protocolserver/server.go and connection.go).
pub mod Invariant
pub mod Quiet
pub mod Registering
pub mod Routing
pub mod Moves
pub mod Orderly
pub mod Ordered
pub mod Safety
pub mod Runs
use sco.Common.{
  ℕ, suc, ◌+◌, ◌≡◌, Bool, true, false, List, [], ◌∷◌, ◌++◌, Option, none, some, length,
}
use sco.Common.Result.{Result, ok, err}
use sco.Common.Dict.{nat_key, lookup, insert}
use sco.Common.Family.{update}
use sco.Protocol.{Response}
use sco.ProtocolServer.Connection.{CtxError, Error, Waiter, Connection, Attempt, write_frame_on}
use sco.ProtocolServer.RequestIds.{next_request_id}
use sco.ProtocolServer.Send.{
  Caller, Ready, received, ctx_done, conn_done, command_error, forget, end_send,
}

-- A call of sendCmd that has registered: its reqID and the number of its respChan.
pub record Ticket : Type 0 where
  pub req_id : ℕ
  pub waiter : Waiter

-- Where a goroutine stands in sendCmd.
pub data Pc : Type 0 where
  idle : Pc
  admitted : Pc  -- behind the check of conn.Ctx, before the lock
  registered : Ticket → Pc  -- unlocked, before writeFrame
  awaiting : Ticket → Pc  -- the select
  returning : Ticket → Result Error Response → Pc  -- before the deferred delete

-- Where the loop of serveConnection stands.
pub data Reader : Type 0 where
  reading : Reader
  delivering : Waiter → Response → Reader  -- handleResponse, unlocked, before respChan <- resp

-- What the goroutines share. A channel has a buffer of one; `started` counts the registrations.
pub record Shared : Type 0 where
  pub conn : Connection
  pub channels : Waiter → Option Response
  pub next_waiter : Waiter
  pub reader : Reader
  pub started : ℕ

-- The locked section of sendCmd, once its search has ended with an id.
abbrev pub register : ℕ → Shared → Shared
register req_id w = record w {
  conn = record (w.conn) {
    request_id_counter = req_id;
    pending_cmds = insert req_id w.next_waiter w.conn.pending_cmds;
  };
  next_waiter = suc w.next_waiter;
  started = suc w.started;
}

abbrev pub set_conn : Connection → Shared → Shared
set_conn c w = record w { conn = c }

-- The locked section of handleResponse, when the channel is there.
abbrev pub take : Response → Waiter → Shared → Shared
take resp v w = record w { conn = forget resp.req_id w.conn; reader = delivering v resp }

-- respChan <- resp, into a buffer with room
abbrev pub deliver : Response → Waiter → Shared → Shared
deliver resp v w = record w {
  conn = record (w.conn) { delivered = w.conn.delivered ++ (v, resp) ∷ [] };
  channels = update w.channels v (some resp);
  reader = reading;
}

-- c.cancel(), and the locked clear(c.pendingCmds) of close
abbrev pub cancel : Connection → Connection
cancel c = record c { closed = true }

abbrev pub clear_pending : Connection → Connection
clear_pending c = record c { pending_cmds = [] }

-- What writeFrame tells sendCmd
abbrev pub sent_or_returning : Caller → Ticket → Option Error → Pc
sent_or_returning caller k none = awaiting k
sent_or_returning caller k (some e) = returning k (err (command_error caller e))

-- The steps of one call of sendCmd; an idle goroutine has not called yet, or has returned.
pub data Move (w : Shared) : Pc → Shared → Pc → Type 0 where
  admit : w.conn.closed ≡ false → Move w idle w admitted
  enroll :
      (req_id : ℕ)
      → next_request_id
          (suc (length w.conn.pending_cmds))
          w.conn.request_id_counter
          w.conn.pending_cmds
        ≡ some req_id
      → Move w admitted
          (register req_id w)
          (registered (record { req_id = req_id; waiter = w.next_waiter }))
  write_command :
      {k : Ticket} (caller : Caller) (a : Attempt) (cmd_data : List ℕ)
      → Move w
          (registered k)
          (set_conn (write_frame_on a w.conn cmd_data).1 w)
          (sent_or_returning caller k (write_frame_on a w.conn cmd_data).0)
  receive :
      {k : Ticket} (caller : Caller) (resp : Response)
      → w.channels k.waiter ≡ some resp
      → Move w
          (awaiting k)
          (record w { channels = update w.channels k.waiter none })
          (returning k (end_send caller k.req_id (received resp) w.conn).0)
  time_out :
      {k : Ticket} (caller : Caller) (e : CtxError)
      → Move w (awaiting k) w (returning k (end_send caller k.req_id (ctx_done e) w.conn).0)
  notice_close :
      {k : Ticket} (caller : Caller)
      → w.conn.closed ≡ true
      → Move w (awaiting k) w (returning k (end_send caller k.req_id conn_done w.conn).0)
  finish :
      {k : Ticket} {result : Result Error Response}
      → Move w (returning k result) (set_conn (forget k.req_id w.conn) w) idle

-- The steps of the other goroutines: the reader, writers of responses, and close.
pub data Event (w : Shared) : Shared → Type 0 where
  route :
      (resp : Response) {v : Waiter}
      → w.reader ≡ reading
      → lookup resp.req_id w.conn.pending_cmds ≡ some v
      → Event w (take resp v w)
  pass_on :
      {resp : Response} {v : Waiter}
      → w.reader ≡ delivering v resp
      → w.channels v ≡ none
      → Event w (deliver resp v w)
  write_other :
      (a : Attempt) (frame : List ℕ) → Event w (set_conn (write_frame_on a w.conn frame).1 w)
  begin_close : Event w (set_conn (cancel w.conn) w)
  end_close : w.conn.closed ≡ true → Event w (set_conn (clear_pending w.conn) w)

pub record System : Type 0 where
  pub shared : Shared
  pub threads : ℕ → Pc

pub data Step (s : System) : System → Type 0 where
  pick :
      (i : ℕ) {w : Shared} {pc : Pc}
      → Move s.shared (s.threads i) w pc
      → Step s (record { shared = w; threads = update s.threads i pc })
  other : {w : Shared} → Event s.shared w → Step s (record { shared = w; threads = s.threads })
