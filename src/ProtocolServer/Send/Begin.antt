-- ===== src/ProtocolServer/Send/Begin.antt =====
-- The first half of sendCmd on a connection that is up: a fresh request id, and the bytes that go out.
use sco.Common.{
  ℕ, suc, ◌^◌, ◌<◌, ◌≡◌, ◌∙◌, false, List, ◌++◌, none, some, length, arith, Option-cases, inl, inr,
}
use sco.Common.Run.{done}
use sco.Common.Dict.{nat_key, lookup, insert}
use sco.Protocol.{Command}
use sco.Protocol.Buffer.{bytes}
use sco.Protocol.Layout.{message_layout, command_layout}
use sco.Protocol.Encode.Writes.{encode_message-Writes, encode_command-Writes}
use sco.ProtocolServer.Connection.{Connection, Attempt, Waiter}
use sco.ProtocolServer.RequestIds.{next_request_id, next_request_id-fresh, next_request_id-ends}
use sco.ProtocolServer.Handlers.Replies.{Succeeds, wire, write_frame_on-Succeeds}
use sco.ProtocolServer.Send.{Caller, waiting, command_message, send_with_id, written, begin_send}

-- The bytes of a command on the wire
abbrev pub command_wire : Command → List ℕ
command_wire c = wire (command_message (command_layout c))

-- The connection on which a waiter stands registered under an id.
abbrev pub enrolled : ℕ → Waiter → Connection → Connection
enrolled id w c = record c { request_id_counter = id; pending_cmds = insert id w c.pending_cmds }

send_with_id-Succeeds :
    (caller : Caller) (a : Attempt) (c : Connection) (w : Waiter) (cmd : Command) (id : ℕ)
    → Succeeds a
    → c.closed ≡ false
    → send_with_id caller a c w cmd id
      ≡ done (
        waiting id,
        record (enrolled id w c) { sent = c.sent ++ command_wire (record cmd { req_id = id }) },
      )
unfolding send_with_id written
send_with_id-Succeeds caller a c w cmd id s h =
    let (p, ep, hp, _) = encode_command-Writes (record cmd { req_id = id }) in
    let (d, ed, hd, _) = encode_message-Writes (command_message (bytes p)) in
    rw ep (
      rw ed (
        rw hd (
          rw hp (
            rw (
              write_frame_on-Succeeds a (enrolled id w c)
                (message_layout (command_message (command_layout (record cmd { req_id = id })))) s
                h)))))

-- A search that found an id goes on with it.
pub begin_send-found :
    (caller : Caller) (a : Attempt) (c : Connection) (w : Waiter) (cmd : Command) (id : ℕ)
    → c.closed ≡ false
    → next_request_id (suc (length c.pending_cmds)) c.request_id_counter c.pending_cmds ≡ some id
    → begin_send none caller a c w cmd ≡ send_with_id caller a c w cmd id
unfolding begin_send
begin_send-found caller a c w cmd id h e = ground arith

-- On an open connection that is up, with fewer than 2^32 commands pending, sendCmd registers its
-- channel under a request id that no other command uses, and puts the command on the wire.
pub begin_send-Succeeds :
    (caller : Caller) (a : Attempt) (c : Connection) (w : Waiter) (cmd : Command)
    → Succeeds a
    → c.closed ≡ false
    → length c.pending_cmds < 2 ^ 32
    → (id : ℕ) × (id < 2 ^ 32)
      × (lookup id c.pending_cmds ≡ none)
      × (begin_send none caller a c w cmd
          ≡ done (
            waiting id,
            record (enrolled id w c) { sent = c.sent ++ command_wire (record cmd { req_id = id }) },
          ))
begin_send-Succeeds caller a c w cmd s h few =
    elim (Option-cases (next_request_id (suc n) c.request_id_counter c.pending_cmds)) [
      | inl e ↦
          absurd (next_request_id-ends n c.request_id_counter c.pending_cmds (omega arith) few e)
      | inr (id, e) ↦
          let (fresh, small) =
            next_request_id-fresh (suc n) c.request_id_counter id c.pending_cmds e in
          (
            id,
            small,
            fresh,
            begin_send-found caller a c w cmd id h e
                ∙ send_with_id-Succeeds caller a c w cmd id s h,
          )
    ]
  where
    n : ℕ
    n = length c.pending_cmds
