-- ===== src/ProtocolServer/Registry/Goroutines/Moves.antt =====
-- Every step of the goroutines keeps the invariant of the registry.
use sco.Common.{ℕ, ◌≡◌, inl, inr, refl, sym, ap, subst, ◌∙◌, Bool, true, false, none, some, arith}
use sco.Common.Run.{done}
use sco.Common.Text.{Text}
use sco.Common.Dict.{text_key, lookup}
use sco.Common.Family.{update}
use sco.CommandStore.{Store}
use sco.ProtocolServer.Connection.{Connection}
use sco.ProtocolServer.Handlers.{Env, handle_message}
use sco.ProtocolServer.Handlers.Reader.{handle_message-Steps}
use sco.ProtocolServer.Registry.{World, set_peer, close_peer, new}
use sco.ProtocolServer.Registry.Goroutines.{
  Pc, idle, Move, connect, connect_failed, replaced, disconnect_locked, disconnected, accept_locked,
  message, last_message, close_served, retire_locked, lost, stop_checking, stop_waiting, ring,
  stop_dialing, retry, dialed, discard, work, System, Step, pick,
}
use sco.ProtocolServer.Registry.Goroutines.Invariant.{ctx_of, held, closes, shut_by, Inv}
use sco.ProtocolServer.Registry.Goroutines.Quiet.{
  Ages, Quiet, Quiet-Inv, set_peer-Ages, Ages-refl, close_peer-Ages, close_peer-closed,
  close_optional-Ages,
}
use sco.ProtocolServer.Registry.Goroutines.Locked.{accept-Inv}
use sco.ProtocolServer.Registry.Goroutines.Connecting.{connect-Inv, dialed-Inv}
use sco.ProtocolServer.Registry.Goroutines.Leaving.{disconnect-Inv, retire-Inv}

-- A message leaves the heap in order.
message-Ages :
    (w : World) (p : ℕ) (env : Env) (stop : Bool) (c : Connection)
    → handle_message env (w.peers p) ≡ done (stop, c)
    → Ages w (set_peer p c w)
message-Ages w p env stop c e =
    let (r, e', keeps) = handle_message-Steps env (w.peers p) in
    let same : r.1 ≡ c = cc in
    set_peer-Ages p c w (ap (λ d. d.conn_ctx.id) (sym same) ∙ ap (λ x. x.id) keeps.0)
      (λ h. ap (λ d. d.closed) (sym same) ∙ keeps.1 h)

-- A step that changes the heap of connections at most, and holds and closes the same ones
same_hold :
    {w w' : World} {pc pc' : Pc}
    → Ages w w'
    → held pc' ≡ held pc
    → ctx_of pc' ≡ ctx_of pc
    → closes pc' ≡ closes pc
    → ((p : ℕ) → shut_by pc' ≡ some p → (w'.peers p).closed ≡ true)
    → Quiet w pc w' pc'
same_hold ages h k g s = record {
  ages = ages;
  holds = h;
  ctx_kept = λ p _. k;
  ctx_shrinks = λ c e. sym k ∙ e;
  closes_shrinks = λ p e. sym g ∙ e;
  shuts = s;
  closed_after = λ p e. inl (g ∙ e);
}

-- A step that ends a goroutine which holds nothing, once what it had to close is closed
rest :
    {w w' : World} {pc : Pc}
    → Ages w w'
    → held pc ≡ none
    → ((p : ℕ) → closes pc ≡ some p → (w'.peers p).closed ≡ true)
    → Quiet w pc w' idle
rest ages h g = record {
  ages = ages;
  holds = sym h;
  ctx_kept = λ p e. absurd cc;
  ctx_shrinks = λ c e. absurd cc;
  closes_shrinks = λ p e. absurd cc;
  shuts = λ p e. absurd cc;
  closed_after = λ p e. inr (g p e);
}

module _ (generate_id : ℕ → Text) (distinct : (p q : ℕ) → generate_id p ≡ generate_id q → p ≡ q)
    {w : World} {t : ℕ → Pc} (inv : Inv generate_id w t) (i : ℕ) where
  quiet :
      {w' : World} {pc pc' : Pc}
      → t i ≡ pc
      → Quiet w pc w' pc'
      → Inv generate_id w' (update t i pc')
  quiet {w'} {pc} {pc'} at q =
      Quiet-Inv generate_id i inv (subst (λ k. Quiet w k w' pc') (sym at) q)

  pub Move-Inv :
      {w' : World} {pc pc' : Pc}
      → t i ≡ pc
      → Move generate_id w pc w' pc'
      → Inv generate_id w' (update t i pc')
  Move-Inv at (connect addr stream) = connect-Inv generate_id distinct inv i stream addr at
  Move-Inv at (connect_failed error) = quiet at (rest (Ages-refl w) refl (λ p e. absurd cc))
  Move-Inv at (replaced {ctx} {addr} {p} {previous}) =
      quiet at (same_hold (close_optional-Ages previous w) refl refl refl (λ p e. absurd cc))
  Move-Inv at disconnect_locked = disconnect-Inv generate_id distinct inv i at
  Move-Inv at (disconnected {previous}) =
      quiet at (rest (close_optional-Ages previous w) refl (λ p e. absurd cc))
  Move-Inv at (accept_locked stream) = accept-Inv generate_id distinct inv i stream at
  Move-Inv at (message {r} {p} env c e) =
      quiet at (same_hold (message-Ages w p env false c e) refl refl refl (λ p e. absurd cc))
  Move-Inv at (last_message {r} {p} env c e) =
      quiet at (same_hold (message-Ages w p env true c e) refl refl refl (λ p e. absurd cc))
  Move-Inv at (close_served {r} {p}) = quiet at (
      same_hold (close_peer-Ages p w) refl refl refl (λ q e.
        let same : p ≡ q = cc in
        ap (λ k. ((close_peer p w).peers k).closed) (sym same) ∙ close_peer-closed p w))
  Move-Inv at (retire_locked {r} {p}) = retire-Inv generate_id distinct inv i r p at
  Move-Inv at (lost alive) = quiet at (same_hold (Ages-refl w) refl refl refl (λ p e. absurd cc))
  Move-Inv at (stop_checking gone) = quiet at (rest (Ages-refl w) refl (λ p e. absurd cc))
  Move-Inv at (stop_waiting gone) = quiet at (rest (Ages-refl w) refl (λ p e. absurd cc))
  Move-Inv at ring = quiet at (same_hold (Ages-refl w) refl refl refl (λ p e. absurd cc))
  Move-Inv at (stop_dialing gone) = quiet at (rest (Ages-refl w) refl (λ p e. absurd cc))
  Move-Inv at (retry alive) = quiet at (same_hold (Ages-refl w) refl refl refl (λ p e. absurd cc))
  Move-Inv at (dialed {ctx} {addr} {delay} stream) =
      dialed-Inv generate_id distinct inv i stream ctx addr delay at
  Move-Inv at (discard {p}) = quiet at (
      rest (close_peer-Ages p w) refl (λ q e.
        let same : p ≡ q = cc in
        ap (λ k. ((close_peer p w).peers k).closed) (sym same) ∙ close_peer-closed p w))
  Move-Inv at (work p c same_id stays) =
      quiet at (rest (set_peer-Ages p c w same_id stays) refl (λ p e. absurd cc))

-- The states that the goroutines of a new server reach, from any heap and any stopped contexts
module _ (generate_id : ℕ → Text) where
  pub record Start (s : System) : Type 0 where
    pub port : Text
    pub cs : Store
    pub server : s.world.server ≡ new port cs
    pub no_peer : s.world.next_peer ≡ 0
    pub no_ctx : s.world.next_ctx ≡ 0
    pub threads : (i : ℕ) → s.threads i ≡ idle

  pub data Reach : System → Type 0 where
    start : {s : System} → Start s → Reach s
    step : {s s' : System} → Reach s → Step generate_id s s' → Reach s'

  Start-Inv : (s : System) → Start s → Inv generate_id s.world s.threads
  unfolding lookup
  Start-Inv s b = record {
    ids = λ p h. absurd (omega (arith, b.no_peer));
    live = λ c h k. absurd (omega (arith, b.no_ctx));
    current = λ c h. absurd (cc (ap (λ v. v.client_cancel) b.server));
    ctx_range = λ j c h. absurd (cc (ap ctx_of (b.threads j)));
    ctx_unique = λ j k c h g. absurd (cc (ap ctx_of (b.threads j)));
    held_range = λ j p h. absurd (cc (ap held (b.threads j)));
    held_unique = λ j k p h g. absurd (cc (ap held (b.threads j)));
    closes_range = λ j p h. absurd (cc (ap closes (b.threads j)));
    shut = λ j p h. absurd (cc (ap shut_by (b.threads j)));
    registered = λ k p h. absurd (cc (subst (λ v. lookup k v.connections ≡ some p) b.server h));
    client = λ p h. absurd (cc (ap (λ v. v.client_conn) b.server));
    accounted = λ p h. absurd (omega (arith, b.no_peer));
  }

  pub Reach-Inv :
      (distinct : (p q : ℕ) → generate_id p ≡ generate_id q → p ≡ q) {s : System}
      → Reach s
      → Inv generate_id s.world s.threads
  Reach-Inv distinct (start b) = Start-Inv _ b
  Reach-Inv distinct (step r (pick i m)) =
      Move-Inv generate_id distinct (Reach-Inv distinct r) i refl m
