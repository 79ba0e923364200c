-- ===== src/ProtocolServer/Registry/Goroutines.antt =====
-- The goroutines of a Server as interleaved steps: callers of ConnectTo and Disconnect, accepted
-- connections, and serveClientConnection with its reconnect (protocol/pkg/protocolserver/server.go).
pub mod Invariant
pub mod Quiet
pub mod Locked
pub mod Connecting
pub mod Leaving
pub mod Moves
pub mod Safety
pub mod Ended
use sco.Common.{ℕ, ◌<◌, ◌≡◌, Bool, true, false, Option, none, some, if◌then◌else◌}
use sco.Common.Run.{done}
use sco.Common.Result.{ok, err}
use sco.Common.Text.{Text}
use sco.Common.Family.{update}
use sco.Protocol.Frame.{Stream}
use sco.ProtocolServer.Connection.{Connection}
use sco.ProtocolServer.Handlers.{Env, handle_message}
use sco.ProtocolServer.Registry.{
  Server, World, id_of, set_peer, close_peer, close_optional, disconnect, retire, accept,
  connect_to, register_reconnected,
}
use sco.ProtocolServer.Registry.Backoff.{reconnect_delay, next_delay}

-- Who runs serveConnection: handleConnection, or serveClientConnection with its context and address.
pub data Role : Type 0 where
  accepted : Role
  outbound : ℕ → Text → Role

-- Where a goroutine stands.
pub data Pc : Type 0 where
  idle : Pc
  replacing : ℕ → Text → ℕ → Option ℕ → Pc  -- ConnectTo, unlocked
  disconnecting : Option ℕ → Pc  -- Disconnect, unlocked
  serving : Role → ℕ → Pc  -- the loop of serveConnection
  leaving : Role → ℕ → Pc  -- behind the loop, before close
  removing : Role → ℕ → Pc  -- closed, before the lock
  checking : ℕ → Text → Pc  -- serveClientConnection, before ctx.Err()
  waiting : ℕ → Text → ℕ → Pc  -- the select of reconnect
  dialing : ℕ → Text → ℕ → Pc
  discarding : ℕ → Pc  -- reconnect, unlocked after a cancellation

-- Where serveConnection returns to
abbrev pub served : Role → Pc
served accepted = idle
served (outbound ctx addr) = checking ctx addr

-- Where reconnect goes on after its locked section
abbrev pub reconnected : ℕ → Text → ℕ → Bool → Pc
reconnected ctx addr p true = serving (outbound ctx addr) p
reconnected ctx addr p false = discarding p

-- All goroutines, and what they share
pub record System : Type 0 where
  pub world : World
  pub threads : ℕ → Pc

module _ (generate_id : ℕ → Text) where
  -- The steps of one goroutine. An idle one stands for a caller that has not called yet, and for one
  -- that has returned; ConnectTo's `go` continues as the goroutine that it starts.
  pub data Move (w : World) : Pc → World → Pc → Type 0 where
    connect :
        (addr : Text) (stream : Stream)
        → Move w idle
            (connect_to generate_id (ok stream) w).1
            (replacing w.next_ctx addr w.next_peer w.server.client_conn)
    connect_failed : (error : Text) → Move w idle (connect_to generate_id (err error) w).1 idle
    replaced :
        {ctx : ℕ} {addr : Text} {p : ℕ} {previous : Option ℕ}
        → Move w
            (replacing ctx addr p previous)
            (close_optional previous w)
            (serving (outbound ctx addr) p)
    disconnect_locked : Move w idle (disconnect w).1 (disconnecting w.server.client_conn)
    disconnected :
        {previous : Option ℕ} → Move w (disconnecting previous) (close_optional previous w) idle
    accept_locked :
        (stream : Stream) → Move w idle (accept generate_id stream w) (serving accepted w.next_peer)
    message :
        {r : Role} {p : ℕ} (env : Env) (c : Connection)
        → handle_message env (w.peers p) ≡ done (false, c)
        → Move w (serving r p) (set_peer p c w) (serving r p)
    last_message :
        {r : Role} {p : ℕ} (env : Env) (c : Connection)
        → handle_message env (w.peers p) ≡ done (true, c)
        → Move w (serving r p) (set_peer p c w) (leaving r p)
    close_served : {r : Role} {p : ℕ} → Move w (leaving r p) (close_peer p w) (removing r p)
    retire_locked : {r : Role} {p : ℕ} → Move w (removing r p) (retire p w) (served r)
    lost :
        {ctx : ℕ} {addr : Text}
        → w.cancelled ctx ≡ false
        → Move w (checking ctx addr) w (waiting ctx addr reconnect_delay)
    stop_checking :
        {ctx : ℕ} {addr : Text} → w.cancelled ctx ≡ true → Move w (checking ctx addr) w idle
    stop_waiting :
        {ctx : ℕ} {addr : Text} {delay : ℕ}
        → w.cancelled ctx ≡ true
        → Move w (waiting ctx addr delay) w idle
    ring :
        {ctx : ℕ} {addr : Text} {delay : ℕ}
        → Move w (waiting ctx addr delay) w (dialing ctx addr delay)
    stop_dialing :
        {ctx : ℕ} {addr : Text} {delay : ℕ}
        → w.cancelled ctx ≡ true
        → Move w (dialing ctx addr delay) w idle
    retry :
        {ctx : ℕ} {addr : Text} {delay : ℕ}
        → w.cancelled ctx ≡ false
        → Move w (dialing ctx addr delay) w (waiting ctx addr (next_delay delay))
    dialed :
        {ctx : ℕ} {addr : Text} {delay : ℕ} (stream : Stream)
        → Move w
            (dialing ctx addr delay)
            (register_reconnected generate_id ctx stream w).1
            (reconnected ctx addr w.next_peer (register_reconnected generate_id ctx stream w).0)
    discard : {p : ℕ} → Move w (discarding p) (close_peer p w) idle
    -- What senders and the goroutines of commands do to a connection
    work :
        (p : ℕ) (c : Connection)
        → c.conn_ctx.id ≡ id_of w p
        → ((w.peers p).closed ≡ true → c.closed ≡ true)
        → Move w idle (set_peer p c w) idle

  pub data Step (s : System) : System → Type 0 where
    pick :
        (i : ℕ) {w : World} {pc : Pc}
        → Move s.world (s.threads i) w pc
        → Step s (record { world = w; threads = update s.threads i pc })
