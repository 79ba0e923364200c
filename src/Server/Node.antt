-- ===== src/Server/Node.antt =====
-- server/internal/node/node.go: whether a node answers, and whether it has room for a task.
pub mod Sockets
use sco.Common.{ℕ, Bool, true, false, ◌&&◌, List, Option, none, some, ◌++◌, ◌==◌, if◌then◌else◌}
use sco.Common.Decimal.{decimal}
use sco.Common.Int.{ℤ, minus64, at_least}
use sco.Common.Result.{Result, ok, err}
use sco.Common.Text.{Text, codes}
use sco.Agent.Exec.{Exec, continue}
use sco.Server.NodeStore.{Node}

-- What Ping uses of net, icmp and ipv4, on a world of type `W`; `A` is the type of addresses. The
-- type that ParseMessage finds is a number.
pub record Icmp (W A : Type 0) : Type 0 where
  pub resolve_ip_addr : Text → Exec W A
  pub listen_packet : Exec W (Unit {0})
  pub marshal : Result Text (List ℕ)
  pub write_to : List ℕ → A → Exec W (Unit {0})
  pub set_read_deadline : Exec W (Unit {0})
  pub read_from : Exec W (List ℕ)
  pub parse_message : List ℕ → Result Text ℕ
  pub echo_reply : ℕ
  pub close : W → W

-- if err != nil { return fmt.Errorf(prefix + " failed: %w", err) }
abbrev pub failing : {W A : Type 0} → Text → Result Text A × W → Result Text A × W
failing prefix (ok a, w) = (ok a, w)
failing prefix (err e, w) = (err (prefix ++ (codes " failed: " ++ e)), w)

module _ {W A : Type 0} (net : Icmp W A) where
  -- The switch over the type of the reply
  abbrev pub judged : Result Text ℕ → Result Text (Unit {0})
  judged (err e) = err (codes "parse icmp message failed: " ++ e)
  judged (ok type) =
      if type == net.echo_reply then ok tt else err (codes "unknown icmp type: " ++ decimal type)

  -- Ping while the socket is open
  abbrev pub exchange : A → Result Text (List ℕ) → Exec W (Unit {0})
  exchange dst (err e) w = (err (codes "marshal icmp packet failed: " ++ e), w)
  exchange dst (ok msg_bytes) w =
      continue (failing (codes "write icmp packet") (net.write_to msg_bytes dst w)) (λ _ w1.
        continue (failing (codes "set read deadline") (net.set_read_deadline w1)) (λ _ w2.
          continue (failing (codes "read icmp packet") (net.read_from w2))
            (λ reply w3. (judged (net.parse_message reply), w3))))

  -- defer conn.Close()
  abbrev pub closing : Result Text (Unit {0}) × W → Result Text (Unit {0}) × W
  closing (r, w) = (r, net.close w)

  unfoldable pub ping_host : Text → Exec W (Unit {0})
  ping_host host w =
      continue (failing (codes "resolve address") (net.resolve_ip_addr host w)) (λ dst w1.
        continue (failing (codes "listen icmp packet") (net.listen_packet w1))
          (λ _ w2. closing (exchange dst net.marshal w2)))

  -- Ping: a node with a connection is taken to be alive.
  unfoldable pub ping : {F Conn : Type 0} → Node F Conn → Exec W (Unit {0})
  ping n w = elim n.conn [ some c ↦ (ok tt, w) | none ↦ ping_host n.host w ]

-- The float32 arithmetic of CanPlaceTask: x - x*cpuThreshold, x - y, x >= y, and
-- int(float32(m)*memThreshold)
pub record Shares (F : Type 0) : Type 0 where
  pub without_threshold : F → F
  pub sub : F → F → F
  pub ge : F → F → Bool
  pub memory_threshold : ℤ → ℤ

module _ {W A F Conn : Type 0} (net : Icmp W A) (shares : Shares F) where
  -- Is there room for a task?
  abbrev pub has_room : Node F Conn → F → ℤ → Bool
  has_room n cpu mem =
      let available_cpu = shares.sub (shares.without_threshold n.max_cpu) n.used_cpu in
      let available_memory =
        minus64 (minus64 n.max_memory (shares.memory_threshold n.max_memory)) n.used_memory in
      shares.ge available_cpu cpu && at_least available_memory mem

  -- CanPlaceTask, after Ping
  abbrev pub placeable : Node F Conn → F → ℤ → Result Text (Unit {0}) × W → Bool × W
  placeable n cpu mem (err e, w) = (false, w)
  placeable n cpu mem (ok u, w) = (has_room n cpu mem, w)

  pub can_place_task : Node F Conn → F → ℤ → W → Bool × W
  can_place_task n cpu mem w = placeable n cpu mem (ping net n w)
