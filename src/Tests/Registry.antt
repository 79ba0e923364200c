-- ===== src/Tests/Registry.antt =====
-- Goroutines of a protocolserver.Server that connect, disconnect and accept, step by step.
use sco.Common.{
  ℕ, suc, min, ◌^◌, ◌+◌, ◌<◌, ◌≡◌, refl, sym, ap, ◌∙◌, Bool, true, false, List, [], ◌∷◌, Option,
  none, some, arith, Bool-cases, ==_iff, ◌==◌,
}
use sco.Common.Run.{done}
use sco.Common.Result.{ok, err}
use sco.Common.Text.{Text, codes}
use sco.Common.Dict.{text_key, lookup}
use sco.Common.Family.{update}
use sco.Protocol.Frame.{Stream, eof}
use sco.ProtocolServer.Connection.{client_not_connected, new_connection, close}
use sco.ProtocolServer.Handlers.Reader.{handle_message-ended}
use sco.ProtocolServer.Handlers.{handle_message}
use sco.ProtocolServer.Registry.{World, new, id_of, disconnect, client_target, target_of}
use sco.ProtocolServer.Registry.Backoff.{max_reconnect_delay, delay_before, delay_before-eq-min}
use sco.ProtocolServer.Registry.Goroutines.{
  Pc, idle, disconnecting, Move, connect, replaced, disconnect_locked, disconnected, last_message,
  close_served, retire_locked, stop_checking, System, pick,
}
use sco.ProtocolServer.Registry.Goroutines.Invariant.{ctx_of, held}
use sco.ProtocolServer.Registry.Goroutines.Moves.{Reach, start, step}
use sco.ProtocolServer.Registry.Goroutines.Safety.{
  AllGone, one_retry_loop, client_target-Owned, idle-AllGone,
}
use sco.ProtocolServer.Registry.Goroutines.Ended.{Trace, stay, further, disconnect-lasts}
use sco.Tests.Peers.{env, pings}

abbrev name : ℕ → Text
name n = n ∷ []

name-distinct : (p q : ℕ) → name p ≡ name q → p ≡ q
name-distinct p q e = cc

abbrev silent : Stream
silent = record { input = []; ending = eof }

abbrev s0 : System
s0 = record {
  world = record {
    server = new (codes "2325") pings;
    peers = λ _. new_connection [] silent;
    next_peer = 0;
    cancelled = λ _. false;
    next_ctx = 0;
  };
  threads = λ _. idle;
}

abbrev after :
    (s : System) (i : ℕ) {w : World} {pc : Pc} → Move name s.world (s.threads i) w pc → System
after s i {w} {pc} m = record { world = w; threads = update s.threads i pc }

s0-Reach : Reach name s0
s0-Reach = start (record {
  port = codes "2325";
  cs = pings;
  server = refl;
  no_peer = refl;
  no_ctx = refl;
  threads = λ i. refl;
})

-- Goroutine 1 calls ConnectTo, and serves the connection.
abbrev s1 : System
s1 = after s0 1 (connect (codes "a:1") silent)

abbrev s2 : System
s2 = after s1 1 replaced

s2-Reach : Reach name s2
s2-Reach = step (step s0-Reach (pick 1 (connect (codes "a:1") silent))) (pick 1 replaced)

one_retry_loop_example : (◌≡◌ {A = ℕ} 1 1) × (s2.world.server.client_cancel ≡ some 0)
one_retry_loop_example = one_retry_loop name name-distinct s2-Reach 1 1 0 0 refl refl refl refl

client_target_two : client_target s2.world ≡ ok 0
unfolding client_target
client_target_two = refl

target_of_two : target_of (name 0) s2.world ≡ ok 0
unfolding target_of lookup sco.Common.Dict.insert sco.Common.Text.Text-discrete
target_of_two = refl

client_target-Owned_example :
    (target_of (id_of s2.world 0) s2.world ≡ ok 0)
    × ((i c : ℕ) × (held (s2.threads i) ≡ some 0)
        × (ctx_of (s2.threads i) ≡ some c)
        × (s2.world.server.client_cancel ≡ some c)
        × (s2.world.cancelled c ≡ false))
client_target-Owned_example = client_target-Owned name name-distinct s2-Reach 0 client_target_two

-- Goroutine 2 calls Disconnect.
abbrev s3 : System
s3 = record {
  world = (disconnect s2.world).1;
  threads = update s2.threads 2 (disconnecting s2.world.server.client_conn);
}

s3-Reach : Reach name s3
s3-Reach = step s2-Reach (pick 2 disconnect_locked)

abbrev s4 : System
s4 = after s3 2 disconnected

s4-Trace : Trace name s3 s4
s4-Trace = further stay (pick 2 disconnected)

disconnect-lasts_example : client_target s4.world ≡ err client_not_connected
disconnect-lasts_example = disconnect-lasts name name-distinct s2-Reach 2 refl s4-Trace refl

-- Goroutine 1 finds the stream at its end, and leaves.
ends : handle_message env (s4.world.peers 0) ≡ done (true, s4.world.peers 0)
unfolding close
ends = handle_message-ended env (s4.world.peers 0) eof refl

abbrev s5 : System
s5 = after s4 1 (last_message env (s4.world.peers 0) ends)

abbrev s6 : System
s6 = after s5 1 close_served

abbrev s7 : System
s7 = after s6 1 retire_locked

abbrev s8 : System
s8 = after s7 1 (stop_checking refl)

s5-Reach : Reach name s5
s5-Reach =
    step (step s3-Reach (pick 2 disconnected)) (pick 1 (last_message env (s4.world.peers 0) ends))

s8-Reach : Reach name s8
s8-Reach =
    step (step (step s5-Reach (pick 1 close_served)) (pick 1 retire_locked))
      (pick 1 (stop_checking refl))

s8-idle : (i : ℕ) → s8.threads i ≡ idle
s8-idle i = ground arith

idle-AllGone_example : AllGone s8.world
idle-AllGone_example = idle-AllGone name name-distinct s8-Reach s8-idle

delay_before-eq-min_example : delay_before 6 ≡ min (2 ^ 6) max_reconnect_delay
delay_before-eq-min_example = delay_before-eq-min 6
