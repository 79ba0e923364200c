-- ===== src/ProtocolServer/Handlers/Replies.antt =====
-- What the handlers do on a connection that is up.
use sco.Common.{
  ℕ, ◌+◌, ◌≤◌, ◌≡◌, sym, ap, ◌∙◌, false, List, [], ◌∷◌, ◌++◌, none, some, length, arith, append-nil,
}
use sco.Common.Run.{done}
use sco.Common.Dict.{nat_key, lookup, delete}
use sco.Protocol.{
  Message, Command, Response, version1, max_frame_size, message_type_command, message_type_response,
  zero_message,
}
use sco.Protocol.Buffer.{bytes}
use sco.Protocol.Layout.{
  message_layout, response_layout, command_layout, IsSendable, CommandFits, ResponseFits,
}
use sco.Protocol.Encode.Writes.{encode_message_into-Writes, encode_response_into-Writes}
use sco.Protocol.Decode.{decode_message_into}
use sco.Protocol.Decode.Accepts.{decode_message_into-layout}
use sco.Protocol.Decode.Records.{decode_command_into-layout, decode_response-layout}
use sco.Protocol.Frame.{read_frame_into, frame_layout}
use sco.Protocol.Frame.Reads.{read_frame_into-layout}
use sco.Protocol.Frame.Writes.{IsUp, write_frame-IsUp}
use sco.CommandStore.{Store, ConnCtx, execute}
use sco.ProtocolServer.Connection.{Connection, Attempt, Waiter, write_frame_on}
use sco.ProtocolServer.Handlers.{
  Env, response_message, write_response, handle_response, dispatch, on_decoded, on_frame,
  handle_message, on_command, handle_command,
}

-- The network lets the write through.
pub record Succeeds (a : Attempt) : Type 0 where
  pub alive : a.ctx_before ≡ none
  pub deadline : a.set_deadline ≡ none
  pub up : IsUp a.writer

pub write_frame_on-Succeeds :
    (a : Attempt) (c : Connection) (xs : List ℕ)
    → Succeeds a
    → c.closed ≡ false
    → write_frame_on a c xs ≡ (none, record c { sent = c.sent ++ frame_layout xs })
unfolding write_frame_on
write_frame_on-Succeeds a c xs s h =
    ground (arith, s.alive, s.deadline, write_frame-IsUp a.writer xs s.up)

-- The bytes of a message on the wire, and of a response.
abbrev pub wire : Message → List ℕ
wire m = frame_layout (message_layout m)

abbrev pub response_wire : Response → List ℕ
response_wire r = wire (response_message (response_layout r))

-- On an open connection writeResponse puts the response on the wire, whatever its pooled buffers
-- hold, and leaves the connection open.
pub write_response-Succeeds :
    (env : Env) (c : Connection) (r : Response)
    → Succeeds env.attempt
    → c.closed ≡ false
    → write_response env c r ≡ done (false, record c { sent = c.sent ++ response_wire r })
unfolding write_response
write_response-Succeeds env c r s h =
    let (p, ep, hp, _) = encode_response_into-Writes r env.buffers.payload in
    let (d, ed, hd, _) =
      encode_message_into-Writes (response_message (bytes p)) env.buffers.message in
    rw ep (
      rw ed (
        rw hd (
          rw hp (
            rw (
              write_frame_on-Succeeds env.attempt c
                (message_layout (response_message (response_layout r))) s h)))))

-- A sendable message whose frame is at most 512 MB, at the head of the stream, is decoded and
-- dispatched, whatever the buffer held, and what follows it stays in the stream.
pub handle_message-wire :
    (env : Env) (c : Connection) (m : Message) (rest : List ℕ)
    → c.stream.input ≡ wire m ++ rest
    → IsSendable m
    → 8 + length m.payload ≤ max_frame_size
    → handle_message env c ≡ dispatch env (record c { stream = record c.stream { input = rest } }) m
unfolding handle_message on_frame on_decoded
handle_message-wire env c m rest h s fits =
    let (b, seen, e) =
      read_frame_into-layout env.buffers.frame (message_layout m) rest c.stream.ending (omega arith)
        (omega arith) in
    let read =
      ap (λ xs. read_frame_into env.buffers.frame (record c.stream { input = xs })) h ∙ e in
    let decoded =
      ap (λ xs. decode_message_into version1 xs zero_message) seen
      ∙ decode_message_into-layout m s in
    rw (read, handle_message) (rw decoded)

-- A response with fields within their Go types, whose id a sender waits under, goes to that sender
-- alone, and the id is free again.
pub handle_response-pending :
    (env : Env) (c : Connection) (m : Message) (r : Response) (w : Waiter)
    → m.payload ≡ response_layout r
    → ResponseFits r
    → lookup r.req_id c.pending_cmds ≡ some w
    → handle_response env c m
      ≡ done (
        false,
        record c {
          pending_cmds = delete r.req_id c.pending_cmds;
          delivered = c.delivered ++ (w, r) ∷ [];
        },
      )
unfolding handle_response
handle_response-pending env c m r w h fits e =
    let decoded = decode_response-layout m r [] fits (h ∙ sym (append-nil (response_layout r))) in
    ground (arith, decoded)

-- A response that nobody waits for is dropped: the connection goes on as it was.
pub handle_response-unknown :
    (env : Env) (c : Connection) (m : Message) (r : Response)
    → m.payload ≡ response_layout r
    → ResponseFits r
    → lookup r.req_id c.pending_cmds ≡ none
    → handle_response env c m ≡ done (false, c)
unfolding handle_response
handle_response-unknown env c m r h fits e =
    let decoded = decode_response-layout m r [] fits (h ∙ sym (append-nil (response_layout r))) in
    ground (arith, decoded)

-- On an open connection that is up, the goroutine of a command with fields within their Go types
-- writes the response that Execute returns, under the request id of the command.
pub handle_command-answers :
    (env : Env) (cs : Store) (c : Connection) (m : Message) (cmd : Command) (r : Response)
    (ctx : ConnCtx)
    → m.payload ≡ command_layout cmd
    → CommandFits cmd
    → execute cs c.conn_ctx m cmd ≡ done (some r, ctx)
    → Succeeds env.attempt
    → c.closed ≡ false
    → handle_command env cs c m
      ≡ done (record c {
        conn_ctx = ctx;
        sent = c.sent ++ response_wire (record r { req_id = cmd.req_id });
      })
unfolding handle_command on_command
handle_command-answers env cs c m cmd r ctx h fits run up open_ =
    let decoded = decode_command_into-layout m cmd fits h in
    rw (decoded, handle_command)
      (rw run (
        rw (
          write_response-Succeeds env (record c { conn_ctx = ctx })
            (record r { req_id = cmd.req_id }) up open_)))

-- A command message goes to a goroutine of its own, and a response message to its waiter.
pub dispatch-command :
    (env : Env) (c : Connection) (m : Message)
    → m.protocol_version ≡ version1
    → m.type ≡ message_type_command
    → dispatch env c m ≡ done (false, record c { spawned = c.spawned ++ m ∷ [] })
unfolding dispatch
dispatch-command env c m v t = ground arith

pub dispatch-response :
    (env : Env) (c : Connection) (m : Message)
    → m.protocol_version ≡ version1
    → m.type ≡ message_type_response
    → dispatch env c m ≡ handle_response env c m
unfolding dispatch
dispatch-response env c m v t = ground arith
