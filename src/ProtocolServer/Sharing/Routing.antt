-- ===== src/ProtocolServer/Sharing/Routing.antt =====
-- A response on its way from the reader to the call that waits for it keeps the invariant.
use sco.Common.{
  ℕ, ◌≡◌, ◌≢◌, ◌⊎◌, inl, inr, refl, sym, ap, ◌∙◌, Option, none, some, arith, ◌==◌, Bool-cases,
  Option-cases, ==_iff, ==_false→ne, ◌≤◌,
}
use sco.Common.Dict.{nat_key, lookup, lookup-delete_self, lookup-delete_ne}
use sco.Common.Family.{update}
use sco.Protocol.{Response}
use sco.ProtocolServer.Connection.{Connection}
use sco.ProtocolServer.Send.{forget}
use sco.ProtocolServer.Sharing.{Ticket, Pc, reading, delivering, Shared, take, deliver}
use sco.ProtocolServer.Sharing.Invariant.{ticket, Mailed, Inv}
use sco.ProtocolServer.Sharing.Quiet.{Ages}

-- An entry that is left was there before, under another id.
pub forgotten :
    (id key v : ℕ) (c : Connection)
    → lookup key (forget id c).pending_cmds ≡ some v
    → (id ≢ key) × (lookup key c.pending_cmds ≡ some v)
forgotten id key v c h = elim (Bool-cases (id == key)) [
  | inl e ↦ absurd (cc (lookup-delete_self id key c.pending_cmds ((==_iff id key).0 e)))
  | inr e ↦
      let apart = ==_false→ne id key e in
      (apart, sym (lookup-delete_ne id key c.pending_cmds apart) ∙ h)
]

-- A channel after an assignment
pub assigned :
    (f : ℕ → Option Response) (v u : ℕ) (o : Option Response) (resp : Response)
    → update f v o u ≡ some resp
    → ((v ≡ u) × (o ≡ some resp)) ⊎ ((v ≢ u) × (f u ≡ some resp))
assigned f v u o resp h = elim (Bool-cases (v == u)) [
  | inl e ↦ inl ((==_iff v u).0 e, ground arith)
  | inr e ↦ inr (==_false→ne v u e, ground arith)
]

-- Two entries with one channel are one.
pub one_entry :
    {w : Shared} {t : ℕ → Pc} (inv : Inv w t) (id key v : ℕ)
    → lookup id w.conn.pending_cmds ≡ some v
    → lookup key w.conn.pending_cmds ≡ some v
    → id ≡ key
one_entry {w} {t} inv id key v h g =
    let (i, at_i) = inv.owned id v h in
    let (j, at_j) = inv.owned key v g in
    let same = inv.unique i j _ _ at_i at_j refl in cc (ap ticket (ap t same))

-- The call that holds the channel of an entry has sent its id.
pub entry_holder :
    {w : Shared} {t : ℕ → Pc} (inv : Inv w t) (id j : ℕ) (k : Ticket)
    → ticket (t j) ≡ some k
    → lookup id w.conn.pending_cmds ≡ some k.waiter
    → id ≡ k.req_id
entry_holder {w} {t} inv id j k at_j h =
    let (i, at_i) = inv.owned id k.waiter h in
    let same = inv.unique i j _ _ at_i at_j refl in cc (ap ticket (ap t same))

-- What is in the mail after the locked section: the response, or what was there.
pub take_mail :
    (w : Shared) (resp r : Response) (v u : ℕ)
    → Mailed (take resp v w) u r
    → ((v ≡ u) × (resp ≡ r)) ⊎ Mailed w u r
take_mail w resp r v u (inl h) = inr (inl h)
take_mail w resp r v u (inr h) = inl (cc, cc)

module _ {w : Shared} {t : ℕ → Pc} (inv : Inv w t) (resp : Response) (v : ℕ)
    (at_rest : w.reader ≡ reading) (found : lookup resp.req_id w.conn.pending_cmds ≡ some v) where
  take_vacant :
      (id u : ℕ) (r : Response)
      → lookup id (take resp v w).conn.pending_cmds ≡ some u
      → ¬ Mailed (take resp v w) u r
  take_vacant id u r h m =
      let (apart, old) = forgotten resp.req_id id u w.conn h in
      elim (take_mail w resp r v u m) [
        | inl (same, _) ↦ apart (one_entry inv resp.req_id id u (found ∙ ap some same) old)
        | inr m' ↦ inv.vacant id u r old m'
      ]

  take_fresh : (u : ℕ) (r : Response) → w.next_waiter ≤ u → ¬ Mailed (take resp v w) u r
  take_fresh u r h m = elim (take_mail w resp r v u m) [
    | inl (same, _) ↦
        let (j, at_j) = inv.owned resp.req_id v found in absurd (omega (arith, inv.range j _ at_j))
    | inr m' ↦ inv.fresh u r h m'
  ]

  pub take-Inv : Inv (take resp v w) t
  take-Inv = record {
    range = inv.range;
    unique = inv.unique;
    owned = λ id u h. inv.owned id u (forgotten resp.req_id id u w.conn h).1;
    vacant = take_vacant;
    room = λ u r h. elim (Option-cases (w.channels u)) [
      | inl e ↦ e
      | inr (r', e) ↦ absurd (inv.vacant resp.req_id v r' found (inl (ap w.channels (cc) ∙ e)))
    ];
    fresh = take_fresh;
    letters = λ j k r h m. elim (take_mail w resp r v k.waiter m) [
      | inl (same, it) ↦
          ap (λ x. x.req_id) (sym it) ∙ entry_holder inv resp.req_id j k h (found ∙ ap some same)
      | inr m' ↦ inv.letters j k r h m'
    ];
    answers = inv.answers;
  }

-- respChan <- resp
pub deliver-Ages :
    {w : Shared} (resp : Response) (v : ℕ)
    → w.reader ≡ delivering v resp
    → Ages w (deliver resp v w)
deliver-Ages {w} resp v flying = record {
  next_waiter = refl;
  pending = λ id u h. h;
  mail = λ u r m. elim m [
    | inl h ↦ elim (assigned w.channels v u (some resp) r h) [
      | inl (same, it) ↦ inr (cc)
      | inr (apart, old) ↦ inl old
    ]
    | inr h ↦ absurd cc
  ];
  room = λ before u r h. absurd cc;
}

-- resp := <-respChan
pub receive-Ages : {w : Shared} (v : ℕ) → Ages w (record w { channels = update w.channels v none })
receive-Ages {w} v = record {
  next_waiter = refl;
  pending = λ id u h. h;
  mail = λ u r m. elim m [
    | inl h ↦ elim (assigned w.channels v u none r h) [
      | inl (same, it) ↦ absurd cc
      | inr (apart, old) ↦ inl old
    ]
    | inr h ↦ inr h
  ];
  room = λ before u r h. ground (arith, before u r h);
}
