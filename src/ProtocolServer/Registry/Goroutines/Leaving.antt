-- ===== src/ProtocolServer/Registry/Goroutines/Leaving.antt =====
-- Disconnect and the end of serveConnection keep the invariant of the registry.
use sco.Common.{
  ℕ, ◌≡◌, ◌≢◌, ◌⊎◌, inl, inr, refl, sym, ap, ◌∙◌, true, Option, none, some, arith, ◌==◌,
  if◌then◌else◌, Bool-cases, ==_iff,
}
use sco.Common.Text.{Text}
use sco.Common.Dict.{text_key, lookup-delete_ne}
use sco.Common.Family.{update, still, before, Someone}
use sco.ProtocolServer.Registry.{World, id_of, disconnect, retire}
use sco.ProtocolServer.Registry.Goroutines.{
  Role, accepted, outbound, Pc, idle, disconnecting, removing, served,
}
use sco.ProtocolServer.Registry.Goroutines.Invariant.{
  ctx_of, held, closes, shut_by, role_ctx, Owned, Inv,
}
use sco.ProtocolServer.Registry.Goroutines.Locked.{cancel-false, lookup-unlist, lookup-delete-some}

served_lem :
    (r : Role)
    → (held (served r) ≡ none)
      × (closes (served r) ≡ none)
      × (shut_by (served r) ≡ none)
      × (ctx_of (served r) ≡ role_ctx r)
served_lem accepted = (refl, refl, refl, refl)
served_lem (outbound c a) = (refl, refl, refl, refl)

-- The outbound connection after `p` has been taken out
other_client :
    (o : Option ℕ) (p q : ℕ)
    → elim o [ none ↦ none | some k ↦ if k == p then none else some k ] ≡ some q
    → (o ≡ some q) × (q ≢ p)
other_client none p q h = absurd cc
other_client (some k) p q h = ground arith

module _ (generate_id : ℕ → Text) (distinct : (p q : ℕ) → generate_id p ≡ generate_id q → p ≡ q)
    {w : World} {t : ℕ → Pc} (inv : Inv generate_id w t) (i : ℕ) where
  pub disconnect-Inv :
      t i ≡ idle
      → Inv generate_id (disconnect w).1 (update t i (disconnecting w.server.client_conn))
  disconnect-Inv at =
      let pc' = disconnecting w.server.client_conn in
      let held_old = before held t i pc' (λ p h. absurd cc) in
      let ctx_old = before ctx_of t i pc' (λ c h. absurd cc) in
      record {
        ids = inv.ids;
        live = λ c small h.
            let (alive, other) = cancel-false w.server.client_cancel w.cancelled c h in
            absurd (other (inv.live c small alive));
        current = λ c h. absurd cc;
        ctx_range = λ j c h. inv.ctx_range j c (ctx_old j c h);
        ctx_unique = λ j k c h g. inv.ctx_unique j k c (ctx_old j c h) (ctx_old k c g);
        held_range = λ j p h. inv.held_range j p (held_old j p h);
        held_unique = λ j k p h g. inv.held_unique j k p (held_old j p h) (held_old k p g);
        closes_range =
            λ j p h. inv.closes_range j p (before closes t i pc' (λ q g. absurd cc) j p h);
        shut = λ j p h. inv.shut j p (before shut_by t i pc' (λ q g. absurd cc) j p h);
        registered = λ k p h.
            let (name, owner) = inv.registered k p (lookup-unlist w w.server.client_conn k p h) in
            (name, still held t i pc' p (λ g. absurd (cc (ap held at))) owner);
        client = λ p h. absurd cc;
        accounted = λ p h. elim (inv.accounted p h) [
          | inl k ↦ inl k
          | inr k ↦ inr (still closes t i pc' p (λ g. absurd (cc (ap closes at))) k)
        ];
      }

  module _ (r : Role) (p : ℕ) (at : t i ≡ removing r p) where
    mine : held (t i) ≡ some p
    mine = ap held at

    own_name : id_of w p ≡ generate_id p
    own_name = inv.ids p (inv.held_range i p mine)

    held_old : (j q : ℕ) → held (update t i (served r) j) ≡ some q → held (t j) ≡ some q
    held_old = before held t i (served r) (λ q h. absurd (cc (served_lem r).0))

    ctx_old : (j c : ℕ) → ctx_of (update t i (served r) j) ≡ some c → ctx_of (t j) ≡ some c
    ctx_old = before ctx_of t i (served r) (λ c h. ap ctx_of at ∙ (sym (served_lem r).3 ∙ h))

    other_held : (q : ℕ) → q ≢ p → Someone held t q → Someone held (update t i (served r)) q
    other_held q ne = still held t i (served r) q (λ g. absurd (ne (cc mine)))

    other_Owned : (q : ℕ) → q ≢ p → Owned w t q → Owned (retire p w) (update t i (served r)) q
    other_Owned q ne (j, c, h, k, s) = elim (Bool-cases (i == j)) [
      | inl e ↦ absurd (ne (cc (mine, ap held (ap t ((==_iff i j).0 e)))))
      | inr e ↦ (j, c, rw e h, rw e k, s)
    ]

    retire_accounted :
        (q : ℕ)
        → ((w.peers q).closed ≡ true) ⊎ Someone closes t q
        → ((w.peers q).closed ≡ true) ⊎ Someone closes (update t i (served r)) q
    retire_accounted q (inl h) = inl h
    retire_accounted q (inr (j, h)) = elim (Bool-cases (i == j)) [
      | inl e ↦
          let same_peer : p ≡ q = cc (ap closes at, ap closes (ap t ((==_iff i j).0 e))) in
          inl (ap (λ k. (w.peers k).closed) (sym same_peer) ∙ inv.shut i p (ap shut_by at))
      | inr e ↦ inr (j, rw e h)
    ]

    pub retire-Inv : Inv generate_id (retire p w) (update t i (served r))
    retire-Inv = record {
      ids = inv.ids;
      live = inv.live;
      current = inv.current;
      ctx_range = λ j c h. inv.ctx_range j c (ctx_old j c h);
      ctx_unique = λ j k c h g. inv.ctx_unique j k c (ctx_old j c h) (ctx_old k c g);
      held_range = λ j q h. inv.held_range j q (held_old j q h);
      held_unique = λ j k q h g. inv.held_unique j k q (held_old j q h) (held_old k q g);
      closes_range = λ j q h.
          inv.closes_range j q
            (before closes t i (served r) (λ k g. absurd (cc (served_lem r).1)) j q h);
      shut = λ j q h.
          inv.shut j q (before shut_by t i (served r) (λ k g. absurd (cc (served_lem r).2)) j q h);
      registered = λ k q h.
          let (ne, found) = lookup-delete-some (id_of w p) k q w.server.connections h in
          let (name, owner) = inv.registered k q found in
          (name, other_held q (λ e. ne (own_name ∙ ap generate_id (sym e) ∙ sym name)) owner);
      client = λ q h.
          let (was, ne) = other_client w.server.client_conn p q h in
          let (found, owner) = inv.client q was in
          (
            lookup-delete_ne (id_of w p) (generate_id q) w.server.connections
                  (λ e. ne (sym (distinct p q (sym own_name ∙ e))))
                ∙ found,
            other_Owned q ne owner,
          );
      accounted = λ q h. retire_accounted q (inv.accounted q h);
    }
