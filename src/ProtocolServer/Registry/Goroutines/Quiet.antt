-- ===== src/ProtocolServer/Registry/Goroutines/Quiet.antt =====
-- The steps that leave the registry alone keep its invariant.
use sco.Common.{
  ℕ, ◌<◌, ◌≡◌, ◌⊎◌, inl, inr, refl, sym, ap, subst, ◌∙◌, true, Option, none, some, arith, ◌==◌,
  Bool-cases, ==_iff,
}
use sco.Common.Text.{Text}
use sco.Common.Dict.{text_key, lookup}
use sco.Common.Family.{update, Someone, still, who, before}
use sco.ProtocolServer.Connection.{Connection, close}
use sco.ProtocolServer.Registry.{World, id_of, set_peer, close_peer, close_optional}
use sco.ProtocolServer.Registry.Goroutines.{Pc}
use sco.ProtocolServer.Registry.Goroutines.Invariant.{ctx_of, held, closes, shut_by, Owned, Inv}

-- The heap after a step: connections keep their ids, and closed ones stay closed.
pub record Ages (w w' : World) : Type 0 where
  pub server : w'.server ≡ w.server
  pub next_peer : w'.next_peer ≡ w.next_peer
  pub cancelled : w'.cancelled ≡ w.cancelled
  pub next_ctx : w'.next_ctx ≡ w.next_ctx
  pub id : (p : ℕ) → id_of w' p ≡ id_of w p
  pub closed : (p : ℕ) → (w.peers p).closed ≡ true → (w'.peers p).closed ≡ true

-- A goroutine goes from `pc` to `pc'`, and keeps what it holds.
pub record Quiet (w : World) (pc : Pc) (w' : World) (pc' : Pc) : Type 0 where
  pub ages : Ages w w'
  pub holds : held pc' ≡ held pc
  pub ctx_kept : (p : ℕ) → held pc ≡ some p → ctx_of pc' ≡ ctx_of pc
  pub ctx_shrinks : (c : ℕ) → ctx_of pc' ≡ some c → ctx_of pc ≡ some c
  pub closes_shrinks : (p : ℕ) → closes pc' ≡ some p → closes pc ≡ some p
  pub shuts : (p : ℕ) → shut_by pc' ≡ some p → (w'.peers p).closed ≡ true
  pub closed_after :
      (p : ℕ) → closes pc ≡ some p → (closes pc' ≡ some p) ⊎ ((w'.peers p).closed ≡ true)

module _ (generate_id : ℕ → Text) {w w' : World} {t : ℕ → Pc} {pc' : Pc} (i : ℕ)
    (inv : Inv generate_id w t) (q : Quiet w (t i) w' pc') where
  held_back : (p : ℕ) → held pc' ≡ some p → held (t i) ≡ some p
  held_back p h = sym q.holds ∙ h

  held_on : (p : ℕ) → held (t i) ≡ some p → held pc' ≡ some p
  held_on p h = q.holds ∙ h

  own_before : (j : ℕ) (p : ℕ) → held (update t i pc' j) ≡ some p → held (t j) ≡ some p
  own_before = before held t i pc' held_back

  ctx_before : (j : ℕ) (c : ℕ) → ctx_of (update t i pc' j) ≡ some c → ctx_of (t j) ≡ some c
  ctx_before = before ctx_of t i pc' q.ctx_shrinks

  Quiet-Owned : (p : ℕ) → Owned w t p → Owned w' (update t i pc') p
  Quiet-Owned p (j, c, h, k, s) = elim (Bool-cases (i == j)) [
    | inl e ↦
        let here : t i ≡ t j = ap t ((==_iff i j).0 e) in
        let own : held (t i) ≡ some p = ap held here ∙ h in
        (
          j,
          c,
          rw e (held_on p own),
          rw e (q.ctx_kept p own ∙ (ap ctx_of here ∙ k)),
          ap (λ v. v.client_cancel) q.ages.server ∙ s,
        )
    | inr e ↦ (j, c, rw e h, rw e k, ap (λ v. v.client_cancel) q.ages.server ∙ s)
  ]

  Quiet-accounted :
      (p : ℕ)
      → ((w.peers p).closed ≡ true) ⊎ Someone closes t p
      → ((w'.peers p).closed ≡ true) ⊎ Someone closes (update t i pc') p
  Quiet-accounted p (inl h) = inl (q.ages.closed p h)
  Quiet-accounted p (inr (j, h)) = elim (Bool-cases (i == j)) [
    | inr e ↦ inr (j, rw e h)
    | inl e ↦ elim (q.closed_after p (ap closes (ap t ((==_iff i j).0 e)) ∙ h)) [
      | inl k ↦ inr (j, rw e k)
      | inr k ↦ inl k
    ]
  ]

  pub Quiet-Inv : Inv generate_id w' (update t i pc')
  Quiet-Inv = record {
    ids = λ p h. q.ages.id p ∙ inv.ids p (subst (λ n. p < n) q.ages.next_peer h);
    live = λ c h k.
        ap (λ s. s.client_cancel) q.ages.server
        ∙ inv.live c (subst (λ n. c < n) q.ages.next_ctx h)
            (ap (λ f. f c) (sym q.ages.cancelled) ∙ k);
    current = λ c h.
        let (small, alive) = inv.current c (ap (λ s. s.client_cancel) (sym q.ages.server) ∙ h) in
        (subst (λ n. c < n) (sym q.ages.next_ctx) small, ap (λ f. f c) q.ages.cancelled ∙ alive);
    ctx_range =
        λ j c h. subst (λ n. c < n) (sym q.ages.next_ctx) (inv.ctx_range j c (ctx_before j c h));
    ctx_unique = λ j k c h g. inv.ctx_unique j k c (ctx_before j c h) (ctx_before k c g);
    held_range =
        λ j p h. subst (λ n. p < n) (sym q.ages.next_peer) (inv.held_range j p (own_before j p h));
    held_unique = λ j k p h g. inv.held_unique j k p (own_before j p h) (own_before k p g);
    closes_range = λ j p h.
        subst (λ n. p < n) (sym q.ages.next_peer)
          (inv.closes_range j p (before closes t i pc' q.closes_shrinks j p h));
    shut = λ j p h. elim (who shut_by t i pc' j p h) [
      | inl (e, h') ↦ q.shuts p h'
      | inr (e, h') ↦ q.ages.closed p (inv.shut j p h')
    ];
    registered = λ k p h.
        let (name, owner) =
          inv.registered k p (ap (λ s. lookup k s.connections) (sym q.ages.server) ∙ h) in
        (name, still held t i pc' p (held_on p) owner);
    client = λ p h.
        let (listed, owner) = inv.client p (ap (λ s. s.client_conn) (sym q.ages.server) ∙ h) in
        (
          ap (λ s. lookup (generate_id p) s.connections) q.ages.server ∙ listed,
          Quiet-Owned p owner,
        );
    accounted = λ p h. Quiet-accounted p (inv.accounted p (subst (λ n. p < n) q.ages.next_peer h));
  }

-- A connection put in place of itself, with its id and no less closed.
pub set_peer-Ages :
    (p : ℕ) (c : Connection) (w : World)
    → c.conn_ctx.id ≡ id_of w p
    → ((w.peers p).closed ≡ true → c.closed ≡ true)
    → Ages w (set_peer p c w)
set_peer-Ages p c w same_id stays = record {
  server = refl;
  next_peer = refl;
  cancelled = refl;
  next_ctx = refl;
  id = λ k. elim (Bool-cases (p == k)) [
    | inl e ↦ rw (e, id_of) (same_id ∙ ap (id_of w) ((==_iff p k).0 e))
    | inr e ↦ rw (e, id_of) refl
  ];
  closed = λ k h. elim (Bool-cases (p == k)) [
    | inl e ↦ rw e (stays (ap (λ n. (w.peers n).closed) ((==_iff p k).0 e) ∙ h))
    | inr e ↦ rw e h
  ];
}

pub Ages-refl : (w : World) → Ages w w
Ages-refl w = record {
  server = refl;
  next_peer = refl;
  cancelled = refl;
  next_ctx = refl;
  id = λ p. refl;
  closed = λ p h. h;
}

-- close keeps the context, and closes.
pub close_lem : (c : Connection) → ((close c).conn_ctx ≡ c.conn_ctx) × ((close c).closed ≡ true)
unfolding close
close_lem c = ground arith

pub close_peer-Ages : (p : ℕ) (w : World) → Ages w (close_peer p w)
close_peer-Ages p w =
    let (kept, shut) = close_lem (w.peers p) in
    set_peer-Ages p (close (w.peers p)) w (ap (λ x. x.id) kept) (λ _. shut)

pub close_peer-closed : (p : ℕ) (w : World) → ((close_peer p w).peers p).closed ≡ true
close_peer-closed p w = rw ((==_iff p p).1 refl) (close_lem (w.peers p)).1

pub close_optional-Ages : (o : Option ℕ) (w : World) → Ages w (close_optional o w)
close_optional-Ages none w = Ages-refl w
close_optional-Ages (some p) w = close_peer-Ages p w
