-- ===== src/ProtocolServer/Registry/Goroutines/Invariant.antt =====
-- What holds in every state that the goroutines of a Server reach.
use sco.Common.{ℕ, ◌<◌, ◌≡◌, ◌⊎◌, true, false, Option, none, some}
use sco.Common.Text.{Text}
use sco.Common.Family.{Someone}
use sco.Common.Dict.{text_key, lookup}
use sco.ProtocolServer.Registry.{World, id_of}
use sco.ProtocolServer.Registry.Goroutines.{
  Role, accepted, outbound, Pc, idle, replacing, disconnecting, serving, leaving, removing,
  checking, waiting, dialing, discarding,
}

abbrev pub role_ctx : Role → Option ℕ
role_ctx accepted = none
role_ctx (outbound ctx addr) = some ctx

-- The context under which a goroutine keeps the outbound connection alive
abbrev pub ctx_of : Pc → Option ℕ
ctx_of (replacing ctx addr p previous) = some ctx
ctx_of (serving r p) = role_ctx r
ctx_of (leaving r p) = role_ctx r
ctx_of (removing r p) = role_ctx r
ctx_of (checking ctx addr) = some ctx
ctx_of (waiting ctx addr delay) = some ctx
ctx_of (dialing ctx addr delay) = some ctx
ctx_of idle = none
ctx_of (disconnecting previous) = none
ctx_of (discarding p) = none

-- The connection that a goroutine serves, and takes out of the registry in the end
abbrev pub held : Pc → Option ℕ
held (replacing ctx addr p previous) = some p
held (serving r p) = some p
held (leaving r p) = some p
held (removing r p) = some p
held idle = none
held (disconnecting previous) = none
held (checking ctx addr) = none
held (waiting ctx addr delay) = none
held (dialing ctx addr delay) = none
held (discarding p) = none

-- The connection that a goroutine will close
abbrev pub closes : Pc → Option ℕ
closes (discarding p) = some p
closes pc = held pc

-- The connection that a goroutine has closed, and has not taken out of the registry yet
abbrev pub shut_by : Pc → Option ℕ
shut_by (removing r p) = some p
shut_by idle = none
shut_by (replacing ctx addr p previous) = none
shut_by (disconnecting previous) = none
shut_by (serving r p) = none
shut_by (leaving r p) = none
shut_by (checking ctx addr) = none
shut_by (waiting ctx addr delay) = none
shut_by (dialing ctx addr delay) = none
shut_by (discarding p) = none

-- A goroutine serves `p` under the context whose cancel function is stored.
abbrev pub Owned : World → (ℕ → Pc) → ℕ → Type 0
Owned w t p =
    (i c : ℕ) × (held (t i) ≡ some p) × (ctx_of (t i) ≡ some c) × (w.server.client_cancel ≡ some c)

module _ (generate_id : ℕ → Text) where
  pub record Inv (w : World) (t : ℕ → Pc) : Type 0 where
    pub ids : (p : ℕ) → p < w.next_peer → id_of w p ≡ generate_id p
    -- Only the stored context is not cancelled.
    pub live : (c : ℕ) → c < w.next_ctx → w.cancelled c ≡ false → w.server.client_cancel ≡ some c
    pub current :
        (c : ℕ) → w.server.client_cancel ≡ some c → (c < w.next_ctx) × (w.cancelled c ≡ false)
    pub ctx_range : (i c : ℕ) → ctx_of (t i) ≡ some c → c < w.next_ctx
    pub ctx_unique : (i j c : ℕ) → ctx_of (t i) ≡ some c → ctx_of (t j) ≡ some c → i ≡ j
    pub held_range : (i p : ℕ) → held (t i) ≡ some p → p < w.next_peer
    pub held_unique : (i j p : ℕ) → held (t i) ≡ some p → held (t j) ≡ some p → i ≡ j
    pub closes_range : (i p : ℕ) → closes (t i) ≡ some p → p < w.next_peer
    pub shut : (i p : ℕ) → shut_by (t i) ≡ some p → (w.peers p).closed ≡ true
    pub registered :
        (k : Text) (p : ℕ)
        → lookup k w.server.connections ≡ some p
        → (k ≡ generate_id p) × Someone held t p
    pub client :
        (p : ℕ)
        → w.server.client_conn ≡ some p
        → (lookup (generate_id p) w.server.connections ≡ some p) × Owned w t p
    pub accounted : (p : ℕ) → p < w.next_peer → ((w.peers p).closed ≡ true) ⊎ Someone closes t p
