-- ===== src/ProtocolServer/Registry/Backoff.antt =====
-- The delays of reconnect in protocol/pkg/protocolserver/server.go, in seconds.
use sco.Common.{ℕ, zero, suc, ◌*◌, ◌^◌, ◌≡◌, refl, min, arith}
use native.Mathlib.Nat.{pow-suc}

abbrev pub reconnect_delay : ℕ
reconnect_delay = 1

abbrev pub max_reconnect_delay : ℕ
max_reconnect_delay = 30

-- delay = min(2*delay, maxReconnectDelay)
unfoldable pub next_delay : ℕ → ℕ
next_delay delay = min (2 * delay) max_reconnect_delay

-- The delay before attempt `k` of one run of reconnect, from 0 on.
pub delay_before : ℕ → ℕ
delay_before zero = reconnect_delay
delay_before (suc k) = next_delay (delay_before k)

-- The delay doubles from one second on, up to 30 seconds: it is 2^k seconds, or 30 if that is less.
pub delay_before-eq-min : (k : ℕ) → delay_before k ≡ min (2 ^ k) max_reconnect_delay
unfolding delay_before next_delay
delay_before-eq-min zero = refl
delay_before-eq-min (suc k) = omega (arith, delay_before-eq-min k, pow-suc 2 k)
