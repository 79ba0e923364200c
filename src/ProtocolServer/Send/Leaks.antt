-- ===== src/ProtocolServer/Send/Leaks.antt =====
-- What sendCmd leaves in the table of pending commands when it returns.
use sco.Common.{
  ◌≡◌, refl, ite, List, Option, none, some, inl, inr, arith, ℕ, suc, length, Bool-cases,
  Option-cases,
}
use sco.Common.Run.{done}
use sco.Common.Dict.{nat_key, same, lookup, insert, lookup-delete, lookup-insert}
use sco.Protocol.{Command}
use sco.Protocol.Buffer.{bytes}
use sco.Protocol.Encode.Writes.{encode_message-Writes, encode_command-Writes}
use sco.ProtocolServer.Connection.{
  CtxError, Connection, Attempt, Waiter, Error, close, write_frame_on,
}
use sco.ProtocolServer.RequestIds.{next_request_id}
use sco.ProtocolServer.Send.{
  Caller, Begun, Begun, Ready, written, command_message, send_with_id, begin_send, end_send,
}

-- Every command that is pending in `d` is pending in `c`, with the same waiter.
abbrev pub NoneNew : Connection → Connection → Type 0
NoneNew c d =
    (id : ℕ) (w : Waiter) → lookup id d.pending_cmds ≡ some w → lookup id c.pending_cmds ≡ some w

write_frame_on-NoneNew :
    (a : Attempt) (c : Connection) (payload : List ℕ) → NoneNew c (write_frame_on a c payload).1
unfolding write_frame_on close lookup
write_frame_on-NoneNew a c payload id w h = ground arith

written-NoneNew :
    (caller : Caller) (id : ℕ) (w : Waiter) (c : Connection) (r : Option Error × Connection)
    (e : Error) (d : Connection)
    → NoneNew (record c { pending_cmds = insert id w c.pending_cmds }) r.1
    → written caller id r ≡ (Begun.refused e, d)
    → NoneNew c d
unfolding written
written-NoneNew caller id w c (some f, c') e d h eq j v found =
    ground (arith, h j v, lookup-delete id j c'.pending_cmds, lookup-insert id j w c.pending_cmds)
written-NoneNew caller id w c (none, c') e d h eq j v found = cc

-- sendCmd under an id writes some frame, with its channel registered.
pub send_with_id-written :
    (caller : Caller) (a : Attempt) (c : Connection) (w : Waiter) (cmd : Command) (id : ℕ)
    → (frame : List ℕ) × (send_with_id caller a c w cmd id
        ≡ done (
            written caller id (
              write_frame_on a
                (record c { request_id_counter = id; pending_cmds = insert id w c.pending_cmds })
                frame)))
unfolding send_with_id
send_with_id-written caller a c w cmd id =
    let (p, ep, _, _) = encode_command-Writes (record cmd { req_id = id }) in
    let (m, em, _, _) = encode_message-Writes (command_message (bytes p)) in
    (bytes m, rw (ep, send_with_id) (rw (em, send_with_id) refl))

send_with_id-NoneNew :
    (caller : Caller) (a : Attempt) (c : Connection) (w : Waiter) (cmd : Command) (id : ℕ)
    (e : Error) (d : Connection)
    → send_with_id caller a c w cmd id ≡ done (Begun.refused e, d)
    → NoneNew c d
send_with_id-NoneNew caller a c w cmd id e d h =
    let registered = record c {
      request_id_counter = id;
      pending_cmds = insert id w c.pending_cmds;
    } in
    let (frame, sends) = send_with_id-written caller a c w cmd id in
    written-NoneNew caller id w (record c { request_id_counter = id })
      (write_frame_on a registered frame) e d (write_frame_on-NoneNew a registered frame)
      (cc (h, sends))

-- If sendCmd fails before it waits, then no command is pending that was not pending before: what it
-- registered is gone again, however far it came.
pub begin_send-NoneNew :
    (start : Option CtxError) (caller : Caller) (a : Attempt) (c d : Connection) (w : Waiter)
    (cmd : Command) (e : Error)
    → begin_send start caller a c w cmd ≡ done (Begun.refused e, d)
    → NoneNew c d
unfolding begin_send
begin_send-NoneNew (some s) caller a c d w cmd e h = λ id v found. ground arith
begin_send-NoneNew none caller a c d w cmd e h = elim (Bool-cases c.closed) [
  | inl hc ↦ λ id v found. ground arith
  | inr hc ↦
      elim (Option-cases
        (next_request_id (suc (length c.pending_cmds)) c.request_id_counter c.pending_cmds)) [
          | inl hn ↦ λ id v found. ground arith
          | inr (n, hn) ↦ send_with_id-NoneNew caller a c w cmd n e d (ground arith)
        ]
]

-- When the wait of sendCmd ends, for whatever reason, its request id is free and every other
-- pending command is still pending.
pub end_send-frees :
    (caller : Caller) (id j : ℕ) (ready : Ready) (c : Connection)
    → lookup j (end_send caller id ready c).1.pending_cmds
      ≡ ite (same id j) none (lookup j c.pending_cmds)
unfolding end_send
end_send-frees caller id j (Ready.received r) c = lookup-delete id j c.pending_cmds
end_send-frees caller id j (Ready.ctx_done e) c = lookup-delete id j c.pending_cmds
end_send-frees caller id j Ready.conn_done c = lookup-delete id j c.pending_cmds
