-- ===== src/Server/Node/Sockets.antt =====
-- Ping closes the socket that it opened.
use sco.Common.{ℕ, ◌+◌, ◌≡◌, refl, ap, ◌∙◌, List, Option-cases, inl, inr}
use sco.Common.Result.{Result, ok, err}
use sco.Common.Text.{Text, codes}
use sco.Agent.Exec.{Exec, continue, bind_keeps}
use sco.Server.NodeStore.{Node}
use sco.Server.Node.{Icmp, failing, exchange, closing, judged, ping_host, ping}

-- `sockets w` is how many sockets are open: only listening opens one, and closing closes one.
pub record SocketLaws {W A : Type 0} (net : Icmp W A) (sockets : W → ℕ) : Type 0 where
  pub resolving : (h : Text) (w : W) → sockets (net.resolve_ip_addr h w).1 ≡ sockets w
  pub listening :
      (w : W) → (net.listen_packet w).0 ≡ ok tt → sockets (net.listen_packet w).1 ≡ sockets w + 1
  pub refused :
      (w : W) (e : Text)
      → (net.listen_packet w).0 ≡ err e
      → sockets (net.listen_packet w).1 ≡ sockets w
  pub writing : (xs : List ℕ) (a : A) (w : W) → sockets (net.write_to xs a w).1 ≡ sockets w
  pub limiting : (w : W) → sockets (net.set_read_deadline w).1 ≡ sockets w
  pub reading : (w : W) → sockets (net.read_from w).1 ≡ sockets w
  pub closing_one : (n : ℕ) (w : W) → sockets w ≡ n + 1 → sockets (net.close w) ≡ n

failing-world : {W B : Type 0} (p : Text) (r : Result Text B × W) → (failing p r).1 ≡ r.1
failing-world p (ok b, w) = refl
failing-world p (err e, w) = refl

module _ {W A : Type 0} (net : Icmp W A) (sockets : W → ℕ) (laws : SocketLaws net sockets) where
  failing-sockets :
      {B : Type 0} (p : Text) (r : Result Text B × W) (n : ℕ)
      → sockets r.1 ≡ n
      → sockets (failing p r).1 ≡ n
  failing-sockets p r n h = ap sockets (failing-world p r) ∙ h

  exchange-sockets :
      (dst : A) (m : Result Text (List ℕ)) (w : W) (n : ℕ)
      → sockets w ≡ n
      → sockets (exchange net dst m w).1 ≡ n
  exchange-sockets dst (err e) w n h = h
  exchange-sockets dst (ok xs) w n h =
      let P : W → Type 0 = λ v. sockets v ≡ n in
      let r1 = failing (codes "write icmp packet") (net.write_to xs dst w) in
      let h1 : P r1.1 =
        failing-sockets (codes "write icmp packet") (net.write_to xs dst w) n
          (laws.writing xs dst w ∙ h) in
      let r2 = failing (codes "set read deadline") (net.set_read_deadline r1.1) in
      let h2 : P r2.1 =
        failing-sockets (codes "set read deadline") (net.set_read_deadline r1.1) n
          (laws.limiting r1.1 ∙ h1) in
      let r3 = failing (codes "read icmp packet") (net.read_from r2.1) in
      let h3 : P r3.1 =
        failing-sockets (codes "read icmp packet") (net.read_from r2.1) n
          (laws.reading r2.1 ∙ h2) in
      let last : List ℕ → Exec W (Unit {0}) =
        λ reply v. (judged net (net.parse_message reply), v) in
      let third : Unit {0} → Exec W (Unit {0}) =
        λ _ v. continue (failing (codes "read icmp packet") (net.read_from v)) last in
      let second : Unit {0} → Exec W (Unit {0}) =
        λ _ v. continue (failing (codes "set read deadline") (net.set_read_deadline v)) third in
      bind_keeps P r1 second h1
        (λ _. bind_keeps P r2 third h2 (λ _. bind_keeps P r3 last h3 (λ reply. h3)))

  closing-sockets :
      (r : Result Text (Unit {0}) × W) (n : ℕ) → sockets r.1 ≡ n + 1 → sockets (closing net r).1 ≡ n
  closing-sockets (r, w) n h = laws.closing_one n w h

  -- After a call that may have opened a socket, and a rest that closes it
  opened :
      (p : Text) (r : Result Text (Unit {0}) × W) (f : Unit {0} → Exec W (Unit {0})) (n : ℕ)
      → (r.0 ≡ ok tt → sockets r.1 ≡ n + 1)
      → ((e : Text) → r.0 ≡ err e → sockets r.1 ≡ n)
      → ((v : W) → sockets v ≡ n + 1 → sockets (f tt v).1 ≡ n)
      → sockets (continue (failing p r) f).1 ≡ n
  opened p (ok u, w) f n h k g = g w (h refl)
  opened p (err e, w) f n h k g = k e refl

  ping_host-sockets : (host : Text) (w : W) → sockets (ping_host net host w).1 ≡ sockets w
  unfolding ping_host
  ping_host-sockets host w =
      let P : W → Type 0 = λ v. sockets v ≡ sockets w in
      let r = failing (codes "resolve address") (net.resolve_ip_addr host w) in
      let h : P r.1 =
        failing-sockets (codes "resolve address") (net.resolve_ip_addr host w) (sockets w)
          (laws.resolving host w) in
      let after : A → Unit {0} → Exec W (Unit {0}) =
        λ dst _ v. closing net (exchange net dst net.marshal v) in
      bind_keeps P r
        (λ dst v. continue (failing (codes "listen icmp packet") (net.listen_packet v)) (after dst))
        h
        (λ dst.
          opened (codes "listen icmp packet") (net.listen_packet r.1) (after dst) (sockets w)
            (λ q. laws.listening r.1 q ∙ ap (λ k. k + 1) h) (λ e q. laws.refused r.1 e q ∙ h)
            (λ v q.
              closing-sockets (exchange net dst net.marshal v) (sockets w)
                (exchange-sockets dst net.marshal v (sockets w + 1) q)))

  -- Where only listening opens a socket, and closing it closes one, Ping leaves as many sockets open
  -- as there were, on every path, errors included.
  pub ping-sockets :
      {F Conn : Type 0} (n : Node F Conn) (w : W) → sockets (ping net n w).1 ≡ sockets w
  unfolding ping
  ping-sockets n w = elim (Option-cases n.conn) [
    | inl e ↦ rw (e, ping) (ping_host-sockets n.host w)
    | inr (c, e) ↦ rw (e, ping) refl
  ]
