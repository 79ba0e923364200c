-- ===== src/ProtocolServer/Handlers/Reader.antt =====
-- What reading a message can do to a connection, whatever bytes the other side sends.
use sco.Common.{
  ℕ, ◌≡◌, refl, sym, ap, ◌∙◌, Bool, true, false, List, [], ◌∷◌, ◌++◌, Option, none, some, arith,
  inl, inr, Option-cases, Bool-cases, ◌==◌,
}
use sco.Common.Run.{Run, done, returns}
use sco.Common.Result.{Result, ok, err}
use sco.Protocol.{
  Message, Response, Error, error_text, message_type_command, message_type_response, zero_message,
  version1,
}
use sco.Protocol.Buffer.{Buffer, bytes}
use sco.Protocol.Encode.Writes.{encode_message_into-Writes, encode_response_into-Writes}
use sco.Protocol.Decode.{decode_message_into, decode_response}
use sco.Protocol.Decode.Accepts.{decode_message_into-ne-panic}
use sco.Protocol.Decode.Records.{decode_response-ne-panic}
use sco.Protocol.Frame.{read_frame_into, Stream, ReadError, FrameError, invalid, read}
use sco.Protocol.Frame.Reads.{read_frame_into-returns, read_frame_into-ended}
use sco.Common.Text.{codes}
use sco.Common.Dict.{nat_key, lookup, delete}
use sco.ProtocolServer.Connection.{Error as ConnectionError}
use sco.ProtocolServer.Connection.{Connection, write_frame_on, close}
use sco.ProtocolServer.Handlers.{
  Env, response_message, failed?, write_response, refusal, handle_response, dispatch, on_read_error,
  on_decoded, on_frame, handle_message,
}

-- A step of the reader returned, kept the identity of the connection, and reopened nothing.
abbrev pub Keeps : Connection → Connection → Type 0
Keeps c d = (d.conn_ctx ≡ c.conn_ctx) × (c.closed ≡ true → d.closed ≡ true)

abbrev pub Steps : Connection → Run (Bool × Connection) → Type 0
Steps c m = (r : Bool × Connection) × (m ≡ done r) × Keeps c r.1

write_frame_on-Keeps :
    (env : Env) (c : Connection) (xs : List ℕ) → Keeps c (write_frame_on env.attempt c xs).1
unfolding write_frame_on close
write_frame_on-Keeps env c xs = ground arith

failed?-Keeps :
    (c : Connection) (r : Option ConnectionError × Connection) → Keeps c r.1 → Keeps c (failed? r).1
failed?-Keeps c (none, d) h = h
failed?-Keeps c (some e, d) h = h

write_response-Steps :
    (env : Env) (c : Connection) (r : Response) → Steps c (write_response env c r)
unfolding write_response
write_response-Steps env c r =
    let (p, ep, hp, _) = encode_response_into-Writes r env.buffers.payload in
    let (d, ed, hd, _) =
      encode_message_into-Writes (response_message (bytes p)) env.buffers.message in
    rw (ep, write_response)
      (rw (ed, write_response)
        ((
          failed? (write_frame_on env.attempt c (bytes d)),
          refl,
          failed?-Keeps c (write_frame_on env.attempt c (bytes d))
              (write_frame_on-Keeps env c (bytes d)),
        )))

Keeps-trans : (c d e : Connection) → Keeps c d → Keeps d e → Keeps c e
Keeps-trans c d e h k = (k.0 ∙ h.0, λ q. k.1 (h.1 q))

-- A step from a connection with another stream is a step from the connection.
Steps-stream :
    (c : Connection) (s : Stream) (m : Run (Bool × Connection))
    → Steps (record c { stream = s }) m
    → Steps c m
Steps-stream c s m h = h

handle_response-Steps :
    (env : Env) (c : Connection) (m : Message) → Steps c (handle_response env c m)
unfolding handle_response
handle_response-Steps env c m =
    let (r, e) = returns (decode_response m) (decode_response-ne-panic m) in
    rw (e, handle_response) (after r)
  where
    after :
        (r : Result Error Response)
        → Steps c (elim r [
          | err e ↦ write_response env c (refusal (error_text e))
          | ok resp ↦ elim (lookup resp.req_id c.pending_cmds) [
            | none ↦ done (false, c)
            | some waiter ↦ done (
              false,
              record c {
                pending_cmds = delete resp.req_id c.pending_cmds;
                delivered = c.delivered ++ (waiter, resp) ∷ [];
              },
            )
          ]
        ])
    after (err e) = write_response-Steps env c (refusal (error_text e))
    after (ok resp) = elim (Option-cases (lookup resp.req_id c.pending_cmds)) [
      | inl e ↦ rw e ((false, c), refl, (refl, λ h. h))
      | inr (w, e) ↦ rw e (_, refl, (refl, λ h. h))
    ]

dispatch-Steps : (env : Env) (c : Connection) (m : Message) → Steps c (dispatch env c m)
unfolding dispatch
dispatch-Steps env c m = elim (Bool-cases (m.protocol_version == version1)) [
  | inr e ↦
      rw e (write_response-Steps env c (refusal (codes "Only protocol version 1 is supported")))
  | inl e ↦ elim (Bool-cases (m.type == message_type_command)) [
    | inl f ↦ rw (e, f) (_, refl, (refl, λ h. h))
    | inr f ↦ elim (Bool-cases (m.type == message_type_response)) [
      | inl g ↦ rw (e, f, g) (handle_response-Steps env c m)
      | inr g ↦
          rw (e, f, g)
            (write_response-Steps env c
              (refusal (codes "Only command and response messages are allowed")))
    ]
  ]
]

on_read_error-Steps :
    (env : Env) (c : Connection) (e : FrameError) → Steps c (on_read_error env c e)
unfolding on_read_error
on_read_error-Steps env c (read e) = ((true, c), refl, (refl, λ h. h))
on_read_error-Steps env c (invalid e) =
    let (r, q, k) = write_response-Steps env c (refusal (error_text e)) in
    rw (q, on_read_error) ((true, r.1), refl, k)

on_decoded-Steps :
    (env : Env) (c : Connection) (r : Option Error × Message) → Steps c (on_decoded env c r)
unfolding on_decoded
on_decoded-Steps env c (some e, msg) = write_response-Steps env c (refusal (error_text e))
on_decoded-Steps env c (none, msg) = dispatch-Steps env c msg

on_frame-Steps :
    (env : Env) (r : Result FrameError Buffer × Stream) (c : Connection)
    → Steps c (on_frame env r c)
unfolding on_frame
on_frame-Steps env (err e, stream) c = on_read_error-Steps env (record c { stream = stream }) e
on_frame-Steps env (ok frame, stream) c =
    let (r, e) =
      returns (decode_message_into version1 (bytes frame) zero_message)
        (decode_message_into-ne-panic version1 (bytes frame) zero_message) in
    rw (e, on_frame) (on_decoded-Steps env (record c { stream = stream }) r)

-- handleMessage returns whatever the other side sends and whatever becomes of its writes: no input
-- makes it panic. It keeps the connection's context, its id included, and a closed connection
-- stays closed.
pub handle_message-Steps : (env : Env) (c : Connection) → Steps c (handle_message env c)
unfolding handle_message
handle_message-Steps env c =
    let (r, e) = read_frame_into-returns env.buffers.frame c.stream in
    rw (e, handle_message) (on_frame-Steps env r c)

-- At the end of the stream handleMessage asks to close the connection.
pub handle_message-ended :
    (env : Env) (c : Connection) (ending : ReadError)
    → c.stream ≡ record { input = []; ending = ending }
    → handle_message env c ≡ done (true, c)
unfolding handle_message on_read_error on_frame
handle_message-ended env c ending h =
    rw
      (
        ap (read_frame_into env.buffers.frame) h ∙ read_frame_into-ended env.buffers.frame ending,
        handle_message,
      )
      (ap (λ s. done (true, record c { stream = s })) (sym h))
