-- ===== src/ProtocolServer/Sharing/Registering.antt =====
-- A call that registers keeps the invariant: its channel is new.
use sco.Common.{
  ℕ, ◌≡◌, ◌≢◌, ◌⊎◌, inl, inr, refl, sym, ap, ◌∙◌, none, some, arith, ◌==◌, Bool-cases, ==_iff,
  ==_false→ne,
}
use sco.Common.Dict.{nat_key, lookup, lookup-insert_self, lookup-insert_ne}
use sco.Common.Family.{update, Someone, still, who}
use sco.Protocol.{Response}
use sco.ProtocolServer.Sharing.{Ticket, Pc, registered, Shared, register}
use sco.ProtocolServer.Sharing.Invariant.{ticket, answer, Mailed, Inv}

-- An entry after the registration is the new one or an old one.
pub registered_entry :
    (id key v : ℕ) (w : Shared)
    → lookup key (register id w).conn.pending_cmds ≡ some v
    → ((id ≡ key) × (v ≡ w.next_waiter)) ⊎ ((id ≢ key) × (lookup key w.conn.pending_cmds ≡ some v))
registered_entry id key v w h = elim (Bool-cases (id == key)) [
  | inl e ↦
      let same = (==_iff id key).0 e in
      inl (same, cc (lookup-insert_self id key w.next_waiter w.conn.pending_cmds same))
  | inr e ↦
      let apart = ==_false→ne id key e in
      inr (apart, sym (lookup-insert_ne id key w.next_waiter w.conn.pending_cmds apart) ∙ h)
]

module _ {w : Shared} {t : ℕ → Pc} (inv : Inv w t) (i : ℕ) (free : ticket (t i) ≡ none)
    (id : ℕ) where
  abbrev new_ticket : Ticket
  new_ticket = record { req_id = id; waiter = w.next_waiter }

  abbrev after : ℕ → Pc
  after = update t i (registered new_ticket)

  -- A ticket after the registration is the new one or an old one.
  pub registered_ticket :
      (j : ℕ) (k : Ticket)
      → ticket (update t i (registered (record { req_id = id; waiter = w.next_waiter })) j) ≡ some k
      → ((i ≡ j) × (record { req_id = id; waiter = w.next_waiter } ≡ k))
        ⊎ ((i ≢ j) × (ticket (t j) ≡ some k))
  registered_ticket j k h = elim (who ticket t i (registered new_ticket) j k h) [
    | inl (e, g) ↦ inl (e, cc)
    | inr (e, g) ↦ inr (e, g)
  ]

  registered_waiter : (j : ℕ) (k : Ticket) → ticket (t j) ≡ some k → w.next_waiter ≢ k.waiter
  registered_waiter j k h e = omega (arith, inv.range j k h)

  registered_owned :
      (key v : ℕ)
      → lookup key (register id w).conn.pending_cmds ≡ some v
      → Someone ticket after (record { req_id = key; waiter = v })
  registered_owned key v h = elim (registered_entry id key v w h) [
    | inl (same, new) ↦ (i, rw ((==_iff i i).1 refl) (cc))
    | inr (apart, old) ↦
        still ticket t i (registered new_ticket) _ (λ g. absurd cc) (inv.owned key v old)
  ]

  registered_vacant :
      (key v : ℕ) (resp : Response)
      → lookup key (register id w).conn.pending_cmds ≡ some v
      → ¬ Mailed w v resp
  registered_vacant key v resp h = elim (registered_entry id key v w h) [
    | inl (same, new) ↦ inv.fresh v resp (omega arith)
    | inr (apart, old) ↦ inv.vacant key v resp old
  ]

  registered_unique :
      (a b : ℕ) (k l : Ticket)
      → ticket (after a) ≡ some k
      → ticket (after b) ≡ some l
      → k.waiter ≡ l.waiter
      → a ≡ b
  registered_unique a b k l h g e = elim (registered_ticket a k h) [
    | inl (ia, new) ↦ elim (registered_ticket b l g) [
      | inl (ib, _) ↦ sym ia ∙ ib
      | inr (_, old) ↦ absurd (registered_waiter b l old (ap (λ x. x.waiter) new ∙ e))
    ]
    | inr (_, old) ↦ elim (registered_ticket b l g) [
      | inl (_, new) ↦ absurd (registered_waiter a k old (ap (λ x. x.waiter) new ∙ sym e))
      | inr (_, old') ↦ inv.unique a b k l old old' e
    ]
  ]

  registered_letters :
      (j : ℕ) (k : Ticket) (resp : Response)
      → ticket (after j) ≡ some k
      → Mailed w k.waiter resp
      → resp.req_id ≡ k.req_id
  registered_letters j k resp h m = elim (registered_ticket j k h) [
    | inl (_, new) ↦ absurd (inv.fresh k.waiter resp (omega (arith, ap (λ x. x.waiter) new)) m)
    | inr (_, old) ↦ inv.letters j k resp old m
  ]

  pub register-Inv : Inv (register id w) after
  register-Inv = record {
    range = λ j k h. elim (registered_ticket j k h) [
      | inl (_, new) ↦ omega (arith, ap (λ x. x.waiter) new)
      | inr (_, old) ↦ omega (arith, inv.range j k old)
    ];
    unique = registered_unique;
    owned = registered_owned;
    vacant = registered_vacant;
    room = inv.room;
    fresh = λ v resp h. inv.fresh v resp (omega arith);
    letters = registered_letters;
    answers = λ j k resp h. elim (who answer t i (registered new_ticket) j (k, resp) h) [
      | inl (_, g) ↦ absurd cc
      | inr (_, g) ↦ inv.answers j k resp g
    ];
  }
