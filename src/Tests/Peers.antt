-- ===== src/Tests/Peers.antt =====
-- Two connected peers of protocol/pkg/protocolserver, a command store, and the server's handlers.
use sco.Common.{
  ℕ, zero, suc, min, ◌+◌, ◌^◌, ◌≤◌, ◌<◌, ◌≡◌, ◌≢◌, ◌⊎◌, inl, inr, refl, ite, true, false, List, [],
  ◌∷◌, ◌++◌, Option, none, some, length, arith, if◌then◌else◌, ℕ_discrete,
}
use sco.Common.Run.{done}
use sco.Common.Text.{Text, codes}
use sco.Common.Dict.{nat_key, text_key}
use sco.SharedModels.{NodeTask}
use sco.Protocol.{Message, Command, Response, zero_message}
use sco.Protocol.Buffer.{empty}
use sco.Protocol.Frame.{eof, Writer, WriteError}
use sco.CommandStore.{Store, ConnCtx, Middleware, get_custom_data, execute, wrap}
use sco.Server.App.{handle_ping, respond}
use sco.Server.Config.{Config}
use sco.Server.App.Session.{store, any_presents, tasks_answer, run_commands, get_tasks_needs_token}
use sco.ProtocolServer.Connection.{Connection, new_connection, Attempt}
use sco.ProtocolServer.Connection.Framing.{write_all, Framed, write_all-Framed}
use sco.ProtocolServer.RequestIds.{next_request_id, next_request_id-ends}
use sco.ProtocolServer.Handlers.{Env, handle_message}
use sco.ProtocolServer.Handlers.Reader.{Steps, handle_message-Steps}
use sco.ProtocolServer.Handlers.Replies.{Succeeds, wire}
use sco.ProtocolServer.Send.{Caller}
use sco.ProtocolServer.Send.Begin.{enrolled}
use sco.ProtocolServer.Send.Rpc.{Answered, begin_send-Answered}
use sco.Tests.Wire.{hello, one_byte, one_byte-IsUp}

abbrev client : Connection
client = new_connection (codes "c") (record { input = []; ending = eof })

abbrev server : Connection
server = new_connection (codes "s") (record { input = []; ending = eof })

abbrev pub slow : Attempt
slow = record { ctx_before = none; set_deadline = none; writer = one_byte; ctx_after = none }

pub slow-Succeeds : Succeeds slow
slow-Succeeds = record { alive = refl; deadline = refl; up = one_byte-IsUp }

abbrev pub env : Env
env = record {
  buffers = record { frame = empty; payload = empty; message = empty };
  attempt = slow;
}

abbrev pub caller : Caller
caller = record { ctx_err = none; past_deadline = false }

abbrev pub pings : Store
pings = record { commands = (1, handle_ping) ∷ []; middlewares = [] }

abbrev pong : Response
pong = respond 200 (codes "pong")

abbrev pub ping : Command
ping = record { req_id = 0; id = 1; payload = codes "ping" }

pings_answer :
    (m : Message) (c : Command)
    → c.id ≡ ping.id
    → c.payload ≡ ping.payload
    → execute pings server.conn_ctx m c ≡ done (some pong, server.conn_ctx)
unfolding execute handle_ping wrap
pings_answer m c hid hp = ground arith

begin_send-Answered_example :
    Answered
      (record { client = client; server = server })
      slow
      caller
      env
      env
      env
      pings
      7
      ping
      pong
      server.conn_ctx
begin_send-Answered_example =
    begin_send-Answered (record { client = client; server = server }) slow caller env env env pings
      7 ping pong server.conn_ctx refl refl (omega arith) slow-Succeeds slow-Succeeds (omega arith)
      (omega arith) (omega arith) (omega arith) pings_answer

-- One write of three bytes, and then the connection breaks.
abbrev three_and_fail : ℕ → List ℕ → ℕ × Option WriteError
three_and_fail zero bs = (min 3 (length bs), none)
three_and_fail (suc k) bs = (0, some WriteError.failure)

three_and_fail-le : (k : ℕ) (bs : List ℕ) → (three_and_fail k bs).0 ≤ length bs
three_and_fail-le zero bs = omega arith
three_and_fail-le (suc k) bs = omega arith

abbrev breaking : Writer
breaking = record { write = three_and_fail; write-le = three_and_fail-le }

abbrev broken : Attempt
broken = record slow { writer = breaking }

-- The second frame is cut, and the third one is refused.
abbrev three_writes : List (Attempt × List ℕ)
three_writes = (slow, codes "hello") ∷ (broken, codes "hello") ∷ (slow, codes "bye") ∷ []

write_all-Framed_example : Framed three_writes client (write_all three_writes client)
write_all-Framed_example = write_all-Framed three_writes client

abbrev two_pending : List (ℕ × ℕ)
two_pending = (4, 0) ∷ (5, 1) ∷ []

next_request_id-ends_example : next_request_id 3 4294967295 ((0, 0) ∷ (1, 1) ∷ []) ≢ none
next_request_id-ends_example =
    next_request_id-ends 2 4294967295 ((0, 0) ∷ (1, 1) ∷ []) (omega arith) (omega arith)

abbrev hearing : Connection
hearing = record server { stream = record { input = wire hello ++ 1 ∷ []; ending = eof } }

abbrev expecting : Connection
expecting = enrolled 4 8 (enrolled 3 7 client)

abbrev answer3 : Response
answer3 = record { req_id = 3; code = 200; payload = codes "pong" }

abbrev asked3 : Command
asked3 = record ping { req_id = 3 }

-- A middleware that answers 500 to every command.
abbrev refusing : Middleware
refusing next ctx msg cmd = done ((some (respond 500 []), none), ctx)

abbrev passing : Middleware
passing next = next

abbrev guarded : Store
guarded = record pings { middlewares = passing ∷ [] }

abbrev pub web : NodeTask ℕ
web = record {
  node = codes "n1";
  container_name = codes "web";
  image = codes "nginx";
  command = [];
  environment_variables = [];
  exposed_ports = (codes "80", codes "8080") ∷ [];
  volumes = [];
  max_cpu = 1;
  max_memory = sco.Common.Int.ℤ.pos 512;
}

abbrev pub cfg : Config ℕ
cfg = record {
  log_level = codes "info";
  access_token = codes "secret";
  tasks = web ∷ record web { node = codes "n2" } ∷ [];
}

-- A list of tasks as text, by their number alone.
abbrev pub count : List (NodeTask ℕ) → Option Text
count ts = some (length ts ∷ [])

abbrev knocks : List (Message × Command)
knocks = (zero_message, record { req_id = 1; id = 2; payload = codes "secret" }) ∷ []

abbrev wants : Command
wants = record { req_id = 2; id = 4; payload = codes "n1" }

get_tasks_needs_token_example :
    (ctx' : ConnCtx) × (run_commands (store count cfg) server.conn_ctx knocks ≡ done ctx')
    × (execute (store count cfg) ctx' zero_message wants
        ≡ done (
          some (
              if any_presents count cfg knocks
              then tasks_answer count cfg wants.payload
              else respond 402 (codes "not authenticated")),
          ctx',
        ))
unfolding get_custom_data
get_tasks_needs_token_example =
    get_tasks_needs_token count cfg server.conn_ctx knocks zero_message wants refl refl

handle_message-Steps_example : Steps client (handle_message env client)
handle_message-Steps_example = handle_message-Steps env client
