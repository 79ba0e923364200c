-- ===== src/ProtocolServer/Registry/Goroutines/Safety.antt =====
-- What callers rely on in every state that the goroutines of a Server reach.
use sco.Common.{
  ℕ, ◌<◌, ◌≡◌, inl, inr, refl, sym, ap, subst, ◌∙◌, true, false, none, some, arith, Option-cases,
}
use sco.Common.Result.{ok, err}
use sco.Common.Text.{Text}
use sco.Common.Family.{Someone}
use sco.Common.Dict.{text_key, lookup}
use sco.ProtocolServer.Connection.{client_not_connected}
use sco.ProtocolServer.Registry.{World, id_of, client_target, target_of}
use sco.ProtocolServer.Registry.Goroutines.{idle, System}
use sco.ProtocolServer.Registry.Goroutines.Invariant.{ctx_of, held, closes}
use sco.ProtocolServer.Registry.Goroutines.Moves.{Reach, Reach-Inv}

-- Every connection that was made is closed, and none is found or sent on.
abbrev pub AllGone : World → Type 0
AllGone w =
    ((p : ℕ) → p < w.next_peer → (w.peers p).closed ≡ true)
    × ((id : Text) → lookup id w.server.connections ≡ none)
    × (client_target w ≡ err client_not_connected)

client_target-ok : (w : World) (p : ℕ) → client_target w ≡ ok p → w.server.client_conn ≡ some p
unfolding client_target
client_target-ok w p h = ground arith

pub client_target-none :
    (w : World) → w.server.client_conn ≡ none → client_target w ≡ err client_not_connected
unfolding client_target
client_target-none w h = rw (h, client_target) refl

target_of-some :
    (id : Text) (w : World) (p : ℕ)
    → target_of id w ≡ ok p
    → lookup id w.server.connections ≡ some p
unfolding target_of
target_of-some id w p h = ground arith

target_of_found :
    (id : Text) (w : World) (p : ℕ)
    → lookup id w.server.connections ≡ some p
    → target_of id w ≡ ok p
unfolding target_of
target_of_found id w p h = rw (h, target_of) refl

module _ (generate_id : ℕ → Text)
    (distinct : (p q : ℕ) → generate_id p ≡ generate_id q → p ≡ q) where
  -- With ids that are distinct, in every state reached, two goroutines whose contexts are not cancelled are the same
  -- goroutine: at most one loop keeps an outbound connection alive, and Server.clientCancel ends it.
  pub one_retry_loop :
      {s : System}
      → Reach generate_id s
      → (i j c d : ℕ) → ctx_of (s.threads i) ≡ some c
      → ctx_of (s.threads j) ≡ some d
      → s.world.cancelled c ≡ false
      → s.world.cancelled d ≡ false
      → (i ≡ j) × (s.world.server.client_cancel ≡ some c)
  one_retry_loop reached i j c d hi hj alive_c alive_d =
      let inv = Reach-Inv generate_id distinct reached in
      let stored = inv.live c (inv.ctx_range i c hi) alive_c in
      let stored' = inv.live d (inv.ctx_range j d hj) alive_d in
      let same : d ≡ c = cc in (inv.ctx_unique i j c hi (hj ∙ ap some same), stored)

  -- With ids that are distinct, in every state reached, the connection that SendCmdContext chooses is
  -- the one that SendCmdToContext finds under its id, and a goroutine serves it under the context
  -- that Server.clientCancel ends, which is not cancelled: no loop that ConnectTo has replaced or
  -- Disconnect has stopped provides it.
  pub client_target-Owned :
      {s : System}
      → Reach generate_id s
      → (p : ℕ) → client_target s.world ≡ ok p
      → (target_of (id_of s.world p) s.world ≡ ok p)
        × ((i c : ℕ) × (held (s.threads i) ≡ some p)
            × (ctx_of (s.threads i) ≡ some c)
            × (s.world.server.client_cancel ≡ some c)
            × (s.world.cancelled c ≡ false))
  client_target-Owned {s} reached p h =
      let inv = Reach-Inv generate_id distinct reached in
      let (found, (i, c, own, under, stored)) = inv.client p (client_target-ok s.world p h) in
      let named = inv.ids p (inv.held_range i p own) in
      (
        subst (λ id. target_of id s.world ≡ ok p) (sym named)
            (target_of_found (generate_id p) s.world p found),
        (i, c, own, under, stored, (inv.current c stored).1),
      )

  -- With ids that are distinct, in every state reached, the connection that SendCmdToContext finds
  -- under an id has this id, and a goroutine serves it that will take it out again.
  pub target_of-served :
      {s : System}
      → Reach generate_id s
      → (id : Text) (p : ℕ) → target_of id s.world ≡ ok p
      → (id_of s.world p ≡ id) × Someone held s.threads p
  target_of-served {s} reached id p h =
      let inv = Reach-Inv generate_id distinct reached in
      let (name, (i, own)) = inv.registered id p (target_of-some id s.world p h) in
      (inv.ids p (inv.held_range i p own) ∙ sym name, (i, own))

  -- With ids that are distinct, when every goroutine has returned, every connection that was ever
  -- made is closed, none is registered under any id, and a send reports that the client is not
  -- connected: nothing leaks.
  pub idle-AllGone :
      {s : System} → Reach generate_id s → ((i : ℕ) → s.threads i ≡ idle) → AllGone s.world
  idle-AllGone {s} reached calm =
      let inv = Reach-Inv generate_id distinct reached in
      (
        (λ p small. elim (inv.accounted p small) [
          | inl h ↦ h
          | inr (i, h) ↦ absurd (cc (ap closes (calm i)))
        ]),
        (λ id. elim (Option-cases (lookup id s.world.server.connections)) [
          | inl e ↦ e
          | inr (p, e) ↦
              let (name, (i, h)) = inv.registered id p e in absurd (cc (ap held (calm i)))
        ]),
        elim (Option-cases s.world.server.client_conn) [
          | inl e ↦ client_target-none s.world e
          | inr (p, e) ↦
              let (found, (i, c, h, _, _)) = inv.client p e in absurd (cc (ap held (calm i)))
        ],
      )
