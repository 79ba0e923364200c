-- ===== src/ProtocolServer/Sharing/Runs.antt =====
-- sendCmd and handleResponse as runs of steps: the functions of one goroutine are what its steps do
-- when no other goroutine comes between.
use sco.Common.{
  ℕ, suc, ◌^◌, ◌<◌, ◌≡◌, inl, inr, refl, sym, ap, subst, ◌∙◌, false, [], ◌∷◌, ◌++◌, Option, none,
  some, length, arith, ==_iff, Option-cases,
}
use sco.Common.Run.{done}
use sco.Common.Result.{ok}
use sco.Common.Dict.{nat_key, lookup}
use sco.Common.Family.{update}
use sco.Protocol.{Message, Command, Response}
use sco.Protocol.Decode.{decode_response}
use sco.ProtocolServer.Connection.{Connection, Attempt, Error, Waiter, write_frame_on}
use sco.ProtocolServer.RequestIds.{next_request_id, next_request_id-ends}
use sco.ProtocolServer.Handlers.{Env, handle_response}
use sco.ProtocolServer.Send.{
  Caller, Begun, refused, waiting, searching, forget, written, begin_send, end_send,
}
use sco.ProtocolServer.Send.Begin.{begin_send-found}
use sco.ProtocolServer.Send.Leaks.{send_with_id-written}
use sco.ProtocolServer.Sharing.{
  Ticket, Pc, idle, admitted, registered, awaiting, returning, reading, Shared, register, set_conn,
  sent_or_returning, Move, admit, enroll, write_command, receive, finish, route, pass_on, System,
  Step, pick, other,
}
use sco.ProtocolServer.Sharing.Invariant.{Mailed}
use sco.ProtocolServer.Sharing.Moves.{Reach}
use sco.ProtocolServer.Sharing.Safety.{waiting-Covered}

pub data Steps : System → System → Type 0 where
  stay : {s : System} → Steps s s
  go : {s s' s'' : System} → Step s s' → Steps s' s'' → Steps s s''

-- A step of a goroutine that stands at `pc`
Step-pick :
    {w w' : Shared} {t : ℕ → Pc} {pc pc' : Pc} (i : ℕ)
    → t i ≡ pc
    → Move w pc w' pc'
    → Step (record { shared = w; threads = t }) (record { shared = w'; threads = update t i pc' })
Step-pick {w} {w'} {t} {pc} {pc'} i at m = pick i (subst (λ p. Move w p w' pc') (sym at) m)

pub update_self : (t : ℕ → Pc) (i : ℕ) (pc : Pc) → update t i pc i ≡ pc
update_self t i pc = rw ((==_iff i i).1 refl) refl

-- What the caller `i` with the channel `v` has come to, by what sendCmd returned before its select;
-- no search is left.
abbrev pub Landed : System → ℕ → Waiter → Begun × Connection → Type 0
Landed s i v (waiting id, c) =
    (s.shared.conn ≡ c) × (s.threads i ≡ awaiting (record { req_id = id; waiter = v }))
Landed s i v (refused e, c) = (s.shared.conn ≡ c) × (s.threads i ≡ idle)
Landed s i v (searching, c) = ⊥

-- From the write on
lands :
    (w : Shared) (t : ℕ → Pc) (i : ℕ) (caller : Caller) (k : Ticket) (r : Option Error × Connection)
    → (s' : System) × Steps
        (record { shared = set_conn r.1 w; threads = update t i (sent_or_returning caller k r.0) })
        s'
      × Landed s' i k.waiter (written caller k.req_id r)
unfolding written
lands w t i caller k (none, c) = (_, stay, (refl, update_self t i _))
lands w t i caller k (some e, c) = (
  _,
  go (Step-pick i (update_self t i _) finish) stay,
  (refl, update_self (update t i (sent_or_returning caller k (some e))) i idle),
)

-- sendCmd up to its select is a run of the steps of its goroutine: for an idle goroutine and an
-- open connection with fewer than 2^32 commands pending, begin_send returns, and the steps lead to
-- the connection that it returns, with the goroutine in the select under the id that it returns, or
-- idle again after an error.
pub begin_send-Steps :
    (s : System) (i : ℕ) (caller : Caller) (a : Attempt) (cmd : Command)
    → s.threads i ≡ idle
    → s.shared.conn.closed ≡ false
    → length s.shared.conn.pending_cmds < 2 ^ 32
    → (r : Begun × Connection) × (begin_send none caller a s.shared.conn s.shared.next_waiter cmd
        ≡ done r)
      × ((s' : System) × Steps s s' × Landed s' i s.shared.next_waiter r)
begin_send-Steps s i caller a cmd at open_yet few =
    let c = s.shared.conn in
    let v = s.shared.next_waiter in
    elim (Option-cases
      (next_request_id (suc (length c.pending_cmds)) c.request_id_counter c.pending_cmds)) [
        | inl e ↦ absurd (
            next_request_id-ends (length c.pending_cmds) c.request_id_counter c.pending_cmds
              (omega arith) few e)
        | inr (id, e) ↦
            let (frame, sends) = send_with_id-written caller a c v cmd id in
            let k : Ticket = record { req_id = id; waiter = v } in
            let w = register id s.shared in
            let t = update (update s.threads i admitted) i (registered k) in
            let (s', run, landed) = lands w t i caller k (write_frame_on a w.conn frame) in
            (
              _,
              begin_send-found caller a c v cmd id open_yet e ∙ sends,
              (
                s',
                go (Step-pick i at (admit open_yet)) (
                    go (Step-pick i (update_self s.threads i admitted) (enroll id e)) (
                      go
                        (Step-pick i (update_self (update s.threads i admitted) i (registered k))
                          (write_command caller a frame))
                        run)),
                landed,
              ),
            )
      ]

handle_response-found :
    (env : Env) (c : Connection) (msg : Message) (resp : Response) (v : Waiter)
    → decode_response msg ≡ done (ok resp)
    → lookup resp.req_id c.pending_cmds ≡ some v
    → handle_response env c msg
      ≡ done (
        false,
        record c {
          pending_cmds = (forget resp.req_id c).pending_cmds;
          delivered = c.delivered ++ (v, resp) ∷ [];
        },
      )
unfolding handle_response
handle_response-found env c msg resp v decoded found = ground arith

-- In every state reached before the 2^32nd registration, with an open connection, a response that
-- the reader handles reaches the call that waits under its request id, unless an earlier one has:
-- handleResponse goes on reading, and its steps and one of the call lead to the connection that it
-- returns and to the call returning this response.
pub response_reaches_caller :
    {s : System}
    → Reach s
    → s.shared.started < 2 ^ 32
    → s.shared.conn.closed ≡ false
    → (i : ℕ) (k : Ticket) → s.threads i ≡ awaiting k
    → ((r : Response) → ¬ Mailed s.shared k.waiter r)
    → s.shared.reader ≡ reading
    → (env : Env) (msg : Message) (resp : Response) → decode_response msg ≡ done (ok resp)
    → resp.req_id ≡ k.req_id
    → (c : Connection) × (handle_response env s.shared.conn msg ≡ done (false, c))
      × ((s' : System) × Steps s s' × (s'.shared.conn ≡ c) × (s'.threads i ≡ returning k (ok resp)))
unfolding end_send
response_reaches_caller {s} reached early open_yet i k at unanswered at_rest env msg resp decoded
      same =
    let caller : Caller = record { ctx_err = none; past_deadline = false } in
    let found : lookup resp.req_id s.shared.conn.pending_cmds ≡ some k.waiter =
      elim (waiting-Covered reached early i k open_yet at) [
        | inl e ↦ ap (λ n. lookup n s.shared.conn.pending_cmds) same ∙ e
        | inr (r, _, m) ↦ absurd (unanswered r m)
      ] in
    let room : s.shared.channels k.waiter ≡ none =
      elim (Option-cases (s.shared.channels k.waiter)) [
        | inl e ↦ e
        | inr (r, e) ↦ absurd (unanswered r (inl e))
      ] in
    (
      _,
      handle_response-found env s.shared.conn msg resp k.waiter decoded found,
      (
        _,
        go (other (route resp at_rest found)) (
            go (other (pass_on refl room)) (
              go
                (Step-pick i at (receive caller resp (rw ((==_iff k.waiter k.waiter).1 refl) refl)))
                stay)),
        refl,
        update_self s.threads i _,
      ),
    )
