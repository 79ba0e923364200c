-- ===== src/Tests/Sharing.antt =====
-- One call of sendCmd and its response on a connection, step by step.
use sco.Common.{
  ℕ, ◌≡◌, ◌⊎◌, ◌<◌, ◌^◌, refl, sym, ap, subst, ◌∙◌, false, List, [], ◌∷◌, ◌++◌, Option, none, some,
  arith, inl, inr,
}
use sco.Common.Run.{done}
use sco.Common.Result.{ok}
use sco.Common.Text.{codes}
use sco.Common.Dict.{nat_key, lookup, insert}
use sco.Common.Family.{update}
use sco.Protocol.{Response}
use sco.Protocol.Layout.{response_layout}
use sco.Protocol.Frame.{eof, frame_layout}
use sco.Protocol.Decode.{decode_response}
use sco.Protocol.Decode.Records.{decode_response_iff}
use sco.ProtocolServer.Connection.{Connection, new_connection}
use sco.ProtocolServer.RequestIds.{next_request_id}
use sco.ProtocolServer.Handlers.{handle_response, response_message}
use sco.ProtocolServer.Handlers.Replies.{write_frame_on-Succeeds}
use sco.ProtocolServer.Send.{Begun, begin_send}
use sco.ProtocolServer.Sharing.{
  Ticket, Pc, idle, admitted, registered, awaiting, returning, reading, Shared, register, set_conn,
  take, deliver, sent_or_returning, Move, admit, enroll, write_command, receive, finish, route,
  pass_on, System, Step, pick, other,
}
use sco.ProtocolServer.Sharing.Invariant.{ticket, Mailed}
use sco.ProtocolServer.Sharing.Moves.{Reach, start, step}
use sco.ProtocolServer.Sharing.Safety.{
  own_response, reader_never_blocks, quiet-NonePending, waiting-Covered,
}
use sco.ProtocolServer.Sharing.Runs.{Steps, Landed, begin_send-Steps, response_reaches_caller}
use sco.Tests.Peers.{env, slow, slow-Succeeds, caller, ping}

abbrev s0 : System
s0 = record {
  shared = record {
    conn = new_connection (codes "c") (record { input = []; ending = eof });
    channels = λ _. none;
    next_waiter = 0;
    reader = reading;
    started = 0;
  };
  threads = λ _. idle;
}

s0-Reach : Reach s0
s0-Reach = start (record {
  id = codes "c";
  stream = record { input = []; ending = eof };
  conn = refl;
  channels = λ v. refl;
  reader = refl;
  started = refl;
  threads = λ i. refl;
})

abbrev after :
    (s : System) (i : ℕ) {w : Shared} {pc : Pc} → Move s.shared (s.threads i) w pc → System
after s i {w} {pc} m = record { shared = w; threads = update s.threads i pc }

-- Goroutine 4 calls sendCmd, and registers under the id 1.
abbrev k1 : Ticket
k1 = record { req_id = 1; waiter = 0 }

first_id : next_request_id 1 0 [] ≡ some 1
unfolding next_request_id lookup
first_id = refl

abbrev s2 : System
s2 = record {
  shared = register 1 s0.shared;
  threads = update (update s0.threads 4 admitted) 4 (registered k1);
}

s2-Reach : Reach s2
s2-Reach = step (step s0-Reach (pick 4 (admit refl))) (pick 4 (enroll 1 first_id))

-- The frame goes out.
abbrev c3 : Connection
c3 = record (s2.shared.conn) { sent = frame_layout (codes "ping") }

abbrev s3 : System
s3 = record { shared = set_conn c3 s2.shared; threads = update s2.threads 4 (awaiting k1) }

s3-Reach : Reach s3
s3-Reach = step s2-Reach (
    pick 4 (
      subst
        (λ r.
          Move s2.shared (registered k1) (set_conn r.1 s2.shared) (sent_or_returning caller k1 r.0))
        (write_frame_on-Succeeds slow s2.shared.conn (codes "ping") slow-Succeeds refl)
        (write_command caller slow (codes "ping"))))

abbrev pong : Response
pong = record { req_id = 1; code = 200; payload = codes "pong" }

waiting-Covered_example :
    (lookup 1 s3.shared.conn.pending_cmds ≡ some 0)
    ⊎ ((resp : Response) × (resp.req_id ≡ 1) × Mailed s3.shared 0 resp)
waiting-Covered_example = waiting-Covered s3-Reach (omega arith) 4 k1 refl refl

response_reaches_caller_example :
    (c : Connection) × (handle_response env s3.shared.conn (response_message (response_layout pong))
      ≡ done (false, c))
    × ((s' : System) × Steps s3 s' × (s'.shared.conn ≡ c) × (s'.threads 4 ≡ returning k1 (ok pong)))
response_reaches_caller_example =
    response_reaches_caller s3-Reach (omega arith) refl 4 k1 refl unmailed refl env
      (response_message (response_layout pong)) pong decoded refl
  where
    unmailed : (r : Response) → ¬ Mailed s3.shared 0 r
    unmailed r (inl h) = absurd cc
    unmailed r (inr h) = absurd cc

    decoded : decode_response (response_message (response_layout pong)) ≡ done (ok pong)
    decoded =
        (decode_response_iff (response_message (response_layout pong)) pong (ground arith)).1
          (ground arith, ([], refl))

found_one : lookup 1 s3.shared.conn.pending_cmds ≡ some 0
unfolding lookup insert sco.Common.ℕ_discrete
found_one = refl

-- The reader takes the channel out of the table.
abbrev s4 : System
s4 = record { shared = take pong 0 s3.shared; threads = s3.threads }

s4-Reach : Reach s4
s4-Reach = step s3-Reach (other (route pong refl found_one))

reader_never_blocks_example :
    (s4.shared.channels 0 ≡ none)
    × Step s4 (record { shared = deliver pong 0 s4.shared; threads = s4.threads })
reader_never_blocks_example = reader_never_blocks s4-Reach 0 pong refl

abbrev s5 : System
s5 = record { shared = deliver pong 0 s4.shared; threads = s4.threads }

s5-Reach : Reach s5
s5-Reach = step s4-Reach (other (pass_on refl refl))

abbrev s6 : System
s6 = record {
  shared = record (s5.shared) { channels = update s5.shared.channels 0 none };
  threads = update s5.threads 4 (returning k1 (ok pong));
}

s6-Reach : Reach s6
unfolding sco.ProtocolServer.Send.end_send
s6-Reach = step s5-Reach (pick 4 (receive caller pong refl))

own_response_example : pong.req_id ≡ k1.req_id
own_response_example = own_response s6-Reach 4 k1 pong refl

-- The deferred delete finds nothing any more.
abbrev s7 : System
s7 = after s6 4 finish

quiet-NonePending_example : s7.shared.conn.pending_cmds ≡ []
quiet-NonePending_example = quiet-NonePending (step s6-Reach (pick 4 finish)) no_ticket
  where
    no_ticket : (i : ℕ) → ticket (s7.threads i) ≡ none
    no_ticket i = ground arith

begin_send-Steps_example :
    (r : Begun × Connection) × (begin_send none caller slow s0.shared.conn 0 ping ≡ done r)
    × ((s' : System) × Steps s0 s' × Landed s' 4 0 r)
begin_send-Steps_example = begin_send-Steps s0 4 caller slow ping refl refl (omega arith)
