-- ===== src/ProtocolServer/Registry/Goroutines/Connecting.antt =====
-- ConnectTo and a reconnect that succeeds keep the invariant of the registry.
use sco.Common.{
  ℕ, ◌+◌, ◌<◌, ◌≡◌, inl, inr, refl, sym, ap, ◌∙◌, false, none, some, arith, ◌==◌, Bool-cases,
  ==_iff, ==_false→ne,
}
use sco.Common.Text.{Text}
use sco.Common.Dict.{text_key, insert}
use sco.Common.Family.{update, who, before}
use sco.Common.Result.{ok}
use sco.Protocol.Frame.{Stream}
use sco.ProtocolServer.Registry.{
  World, id_of, add_peer, cancel, unlist, connect_to, register_reconnected,
}
use sco.ProtocolServer.Registry.Goroutines.{
  outbound, Pc, idle, replacing, serving, dialing, discarding, reconnected,
}
use sco.ProtocolServer.Registry.Goroutines.Invariant.{ctx_of, closes, Inv}
use sco.ProtocolServer.Registry.Goroutines.Locked.{
  cancel-false, lookup-unlist, added_ids, added_closes_range, added_held_range, added_held_unique,
  added-Someone, added_accounted, added_shut, added_owner, listed_self, listed_registered, here,
}

module _ (generate_id : ℕ → Text) (distinct : (p q : ℕ) → generate_id p ≡ generate_id q → p ≡ q)
    {w : World} {t : ℕ → Pc} (inv : Inv generate_id w t) (i : ℕ) (stream : Stream) where
  abbrev n : ℕ
  n = w.next_peer

  -- A new context is the only one that is not cancelled.
  live_new :
      (c : ℕ)
      → c < w.next_ctx + 1
      → update (cancel w.server.client_cancel w.cancelled) w.next_ctx false c ≡ false
      → some w.next_ctx ≡ some c
  live_new c small h = elim (Bool-cases (w.next_ctx == c)) [
    | inl e ↦ ap some ((==_iff w.next_ctx c).0 e)
    | inr e ↦
        let (alive, other) = cancel-false w.server.client_cancel w.cancelled c (ground arith) in
        absurd (other (inv.live c (omega (arith, ==_false→ne w.next_ctx c e)) alive))
  ]

  module _ (addr : Text) (at : t i ≡ idle) where
    abbrev pc' : Pc
    pc' = replacing w.next_ctx addr n w.server.client_conn

    free : closes (t i) ≡ none
    free = ap closes at

    taken : (p : ℕ) → closes pc' ≡ some p → p ≡ n
    taken p h = cc

    connect_ctx_range : (j c : ℕ) → ctx_of (update t i pc' j) ≡ some c → c < w.next_ctx + 1
    connect_ctx_range j c h = elim (who ctx_of t i pc' j c h) [
      | inl (e, k) ↦ let now : w.next_ctx ≡ c = cc in omega arith
      | inr (e, k) ↦ omega (arith, inv.ctx_range j c k)
    ]

    connect_ctx_unique :
        (j k c : ℕ)
        → ctx_of (update t i pc' j) ≡ some c
        → ctx_of (update t i pc' k) ≡ some c
        → j ≡ k
    connect_ctx_unique j k c h g = elim (who ctx_of t i pc' j c h) [
      | inl (ij, h') ↦ elim (who ctx_of t i pc' k c g) [
        | inl (ik, g') ↦ sym ij ∙ ik
        | inr (ik, g') ↦
            let now : w.next_ctx ≡ c = cc in absurd (omega (arith, inv.ctx_range k c g'))
      ]
      | inr (ij, h') ↦ elim (who ctx_of t i pc' k c g) [
        | inl (ik, g') ↦
            let now : w.next_ctx ≡ c = cc in absurd (omega (arith, inv.ctx_range j c h'))
        | inr (ik, g') ↦ inv.ctx_unique j k c h' g'
      ]
    ]

    pub connect-Inv : Inv generate_id (connect_to generate_id (ok stream) w).1 (update t i pc')
    connect-Inv =
        let w1 = add_peer generate_id stream w in
        let m = unlist w1 w.server.client_conn in
        let at_work = here generate_id distinct inv i stream pc' free refl taken in
        record {
          ids = added_ids generate_id inv i pc' free taken stream;
          live = live_new;
          current = λ c h.
              let now : w.next_ctx ≡ c = cc in (omega arith, rw ((==_iff w.next_ctx c).1 now) refl);
          ctx_range = connect_ctx_range;
          ctx_unique = connect_ctx_unique;
          held_range = added_held_range generate_id inv i pc' free taken;
          held_unique = added_held_unique generate_id inv i pc' free taken;
          closes_range = added_closes_range generate_id inv i pc' free taken;
          shut = added_shut generate_id inv i pc' free taken stream refl;
          registered =
              listed_registered generate_id distinct inv i stream pc' free refl taken m
                (lookup-unlist w1 w.server.client_conn);
          client = λ p h.
              let now : n ≡ p = cc in
              (
                listed_self generate_id distinct inv i stream m p now,
                (i, w.next_ctx, at_work ∙ ap some now, rw ((==_iff i i).1 refl) refl, refl),
              );
          accounted = added_accounted generate_id inv i pc' free taken stream refl;
        }

  module _ (ctx : ℕ) (addr : Text) (delay : ℕ) (at : t i ≡ dialing ctx addr delay) where
    dial_free : closes (t i) ≡ none
    dial_free = ap closes at

    discard-Inv : Inv generate_id (add_peer generate_id stream w) (update t i (discarding n))
    discard-Inv =
        let pc' = discarding n in
        let free = dial_free in
        let taken : (p : ℕ) → closes pc' ≡ some p → p ≡ n = λ p h. cc in
        let old = before ctx_of t i pc' (λ c h. absurd cc) in
        record {
          ids = added_ids generate_id inv i pc' free taken stream;
          live = inv.live;
          current = inv.current;
          ctx_range = λ j c h. inv.ctx_range j c (old j c h);
          ctx_unique = λ j k c h g. inv.ctx_unique j k c (old j c h) (old k c g);
          held_range = added_held_range generate_id inv i pc' free taken;
          held_unique = added_held_unique generate_id inv i pc' free taken;
          closes_range = added_closes_range generate_id inv i pc' free taken;
          shut = added_shut generate_id inv i pc' free taken stream refl;
          registered = λ k p h.
              let (name, owner) = inv.registered k p h in
              (name, added-Someone generate_id inv i pc' free taken p owner);
          client = λ p h.
              let (found, owner) = inv.client p h in
              (found, added_owner generate_id inv i pc' free taken p owner);
          accounted = added_accounted generate_id inv i pc' free taken stream refl;
        }

    abbrev world_again : World
    world_again =
        let w1 = add_peer generate_id stream w in
        record w1 {
          server = record w.server {
            client_conn = some n;
            connections = insert (id_of w1 n) n w.server.connections;
          };
        }

    again-Inv :
        w.cancelled ctx ≡ false
        → Inv generate_id world_again (update t i (serving (outbound ctx addr) n))
    again-Inv alive =
        let pc' = serving (outbound ctx addr) n in
        let free = dial_free in
        let taken : (p : ℕ) → closes pc' ≡ some p → p ≡ n = λ p h. cc in
        let mine : ctx_of (t i) ≡ some ctx = ap ctx_of at in
        let old = before ctx_of t i pc' (λ c h. mine ∙ h) in
        let at_work = here generate_id distinct inv i stream pc' free refl taken in
        record {
          ids = added_ids generate_id inv i pc' free taken stream;
          live = inv.live;
          current = inv.current;
          ctx_range = λ j c h. inv.ctx_range j c (old j c h);
          ctx_unique = λ j k c h g. inv.ctx_unique j k c (old j c h) (old k c g);
          held_range = added_held_range generate_id inv i pc' free taken;
          held_unique = added_held_unique generate_id inv i pc' free taken;
          closes_range = added_closes_range generate_id inv i pc' free taken;
          shut = added_shut generate_id inv i pc' free taken stream refl;
          registered =
              listed_registered generate_id distinct inv i stream pc' free refl taken
                w.server.connections (λ k p h. h);
          client = λ p h.
              let now : n ≡ p = cc in
              (
                listed_self generate_id distinct inv i stream w.server.connections p now,
                (
                  i,
                  ctx,
                  at_work ∙ ap some now,
                  rw ((==_iff i i).1 refl) refl,
                  inv.live ctx (inv.ctx_range i ctx mine) alive,
                ),
              );
          accounted = added_accounted generate_id inv i pc' free taken stream refl;
        }

    pub dialed-Inv :
        let r = register_reconnected generate_id ctx stream w in
        Inv generate_id r.1 (update t i (reconnected ctx addr n r.0))
    dialed-Inv = elim (Bool-cases (w.cancelled ctx)) [
      | inl e ↦ rw e discard-Inv
      | inr e ↦ rw e (again-Inv e)
    ]
