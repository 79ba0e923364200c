-- ===== src/ProtocolServer/Registry/Goroutines/Locked.antt =====
-- The steps under connectionsMu keep the invariant of the registry.
use sco.Common.{
  ℕ, ◌+◌, ◌<◌, ◌≡◌, ◌≢◌, ◌⊎◌, inl, inr, refl, sym, ap, ◌∙◌, Bool, true, false, List, Option, none,
  some, arith, ◌==◌, Bool-cases, ==_iff, ==_false→ne,
}
use sco.Common.Text.{Text}
use sco.Common.Dict.{
  text_key, lookup, insert, delete, lookup-insert, lookup-delete, lookup-insert_self,
  lookup-insert_ne,
}
use sco.Common.Family.{update, still, who, before, Someone}
use sco.Protocol.Frame.{Stream}
use sco.ProtocolServer.Registry.{World, id_of, add_peer, cancel, unlist, accept}
use sco.ProtocolServer.Registry.Goroutines.{
  accepted, Pc, idle, replacing, disconnecting, serving, leaving, removing, checking, waiting,
  dialing, discarding,
}
use sco.ProtocolServer.Registry.Goroutines.Invariant.{ctx_of, held, closes, shut_by, Owned, Inv}

pub held-closes : (pc : Pc) (p : ℕ) → held pc ≡ some p → closes pc ≡ some p
held-closes (discarding q) p h = cc
held-closes idle p h = h
held-closes (replacing c a q r) p h = h
held-closes (disconnecting r) p h = h
held-closes (serving r q) p h = h
held-closes (leaving r q) p h = h
held-closes (removing r q) p h = h
held-closes (checking c a) p h = h
held-closes (waiting c a d) p h = h
held-closes (dialing c a d) p h = h

pub shut_by-held : (pc : Pc) (p : ℕ) → shut_by pc ≡ some p → held pc ≡ some p
shut_by-held (removing r q) p h = h
shut_by-held idle p h = cc
shut_by-held (replacing c a q r) p h = cc
shut_by-held (disconnecting r) p h = cc
shut_by-held (serving r q) p h = cc
shut_by-held (leaving r q) p h = cc
shut_by-held (checking c a) p h = cc
shut_by-held (waiting c a d) p h = cc
shut_by-held (dialing c a d) p h = cc
shut_by-held (discarding q) p h = cc

pub cancel-false :
    (o : Option ℕ) (f : ℕ → Bool) (c : ℕ) → cancel o f c ≡ false → (f c ≡ false) × (o ≢ some c)
cancel-false none f c h = (h, λ e. cc)
cancel-false (some d) f c h = ground arith

pub lookup-delete-some :
    (k j : Text) (p : ℕ) (m : List (Text × ℕ))
    → lookup j (delete k m) ≡ some p
    → (k ≢ j) × (lookup j m ≡ some p)
lookup-delete-some k j p m h = ground (arith, lookup-delete k j m)

pub lookup-unlist :
    (w : World) (o : Option ℕ) (k : Text) (p : ℕ)
    → lookup k (unlist w o) ≡ some p
    → lookup k w.server.connections ≡ some p
lookup-unlist w none k p h = h
lookup-unlist w (some q) k p h = (lookup-delete-some (id_of w q) k p w.server.connections h).1

-- Goroutine `i`, which held nothing, goes to `pc'` with the new connection or with nothing.
module _ (generate_id : ℕ → Text) {w : World} {t : ℕ → Pc} (inv : Inv generate_id w t) (i : ℕ)
    (pc' : Pc) (free : closes (t i) ≡ none)
    (taken : (p : ℕ) → closes pc' ≡ some p → p ≡ w.next_peer) where
  free_held : (p : ℕ) → held (t i) ≡ some p → ⊥
  free_held p h = cc (held-closes (t i) p h)

  pub added_ids :
      (stream : Stream) (p : ℕ)
      → p < w.next_peer + 1
      → id_of (add_peer generate_id stream w) p ≡ generate_id p
  added_ids stream p h = elim (Bool-cases (w.next_peer == p)) [
    | inl e ↦ rw (e, id_of) (ap generate_id ((==_iff w.next_peer p).0 e))
    | inr e ↦ rw (e, id_of) (inv.ids p (omega (arith, ==_false→ne w.next_peer p e)))
  ]

  pub added_closes_range : (j p : ℕ) → closes (update t i pc' j) ≡ some p → p < w.next_peer + 1
  added_closes_range j p h = elim (Bool-cases (i == j)) [
    | inl e ↦ omega (arith, taken p (ground arith))
    | inr e ↦ omega (arith, inv.closes_range j p (ground arith))
  ]

  pub added_held_range : (j p : ℕ) → held (update t i pc' j) ≡ some p → p < w.next_peer + 1
  added_held_range j p h = added_closes_range j p (held-closes (update t i pc' j) p h)

  pub added_held_unique :
      (j k p : ℕ) → held (update t i pc' j) ≡ some p → held (update t i pc' k) ≡ some p → j ≡ k
  added_held_unique j k p h g = elim (who held t i pc' j p h) [
    | inl (ij, h') ↦ elim (who held t i pc' k p g) [
      | inl (ik, g') ↦ sym ij ∙ ik
      | inr (ik, g') ↦ absurd (omega (arith, taken p (held-closes pc' p h'), inv.held_range k p g'))
    ]
    | inr (ij, h') ↦ elim (who held t i pc' k p g) [
      | inl (ik, g') ↦ absurd (omega (arith, taken p (held-closes pc' p g'), inv.held_range j p h'))
      | inr (ik, g') ↦ inv.held_unique j k p h' g'
    ]
  ]

  pub added-Someone : (p : ℕ) → Someone held t p → Someone held (update t i pc') p
  added-Someone p = still held t i pc' p (λ h. absurd (free_held p h))

  pub added_accounted :
      (stream : Stream)
      → closes pc' ≡ some w.next_peer
      → (p : ℕ) → p < w.next_peer + 1
      → (((add_peer generate_id stream w).peers p).closed ≡ true)
        ⊎ Someone closes (update t i pc') p
  added_accounted stream now p h = elim (Bool-cases (w.next_peer == p)) [
    | inl e ↦ inr (i, rw ((==_iff i i).1 refl) (now ∙ ap some ((==_iff w.next_peer p).0 e)))
    | inr e ↦ elim (inv.accounted p (omega (arith, ==_false→ne w.next_peer p e))) [
      | inl k ↦ inl (rw e k)
      | inr k ↦ inr (still closes t i pc' p (λ q. absurd cc) k)
    ]
  ]

  pub added_shut :
      (stream : Stream)
      → shut_by pc' ≡ none
      → (j p : ℕ) → shut_by (update t i pc' j) ≡ some p
      → ((add_peer generate_id stream w).peers p).closed ≡ true
  added_shut stream none_shut j p h = elim (who shut_by t i pc' j p h) [
    | inl (e, h') ↦ absurd cc
    | inr (e, h') ↦ elim (Bool-cases (w.next_peer == p)) [
      | inl k ↦
          let small = inv.held_range j p (shut_by-held (t j) p h') in
          absurd (omega (arith, (==_iff w.next_peer p).0 k))
      | inr k ↦ rw k (inv.shut j p h')
    ]
  ]

  -- Goroutine `i` is none of those that hold a connection.
  pub free_apart : (j p : ℕ) → held (t j) ≡ some p → (i == j) ≡ false
  free_apart j p h = elim (Bool-cases (i == j)) [
    | inl e ↦ absurd (free_held p (ap held (ap t ((==_iff i j).0 e)) ∙ h))
    | inr e ↦ e
  ]

  pub added_owner : (p : ℕ) → Owned w t p → Owned w (update t i pc') p
  added_owner p (j, c, h, k, s) = let e = free_apart j p h in (j, c, rw e h, rw e k, s)

module _ (generate_id : ℕ → Text) (distinct : (p q : ℕ) → generate_id p ≡ generate_id q → p ≡ q)
    {w : World} {t : ℕ → Pc} (inv : Inv generate_id w t) (i : ℕ) (stream : Stream) where
  abbrev pub n : ℕ
  n = w.next_peer

  pub own_id : id_of (add_peer generate_id stream w) n ≡ generate_id n
  own_id = rw ((==_iff n n).1 refl, id_of) refl

  abbrev pub list_new : List (Text × ℕ) → List (Text × ℕ)
  list_new m = insert (id_of (add_peer generate_id stream w) n) n m

  -- What is found in the registry once the new connection is listed
  pub listed :
      (m : List (Text × ℕ)) (k : Text) (p : ℕ)
      → lookup k (list_new m) ≡ some p
      → ((k ≡ generate_id p) × (n ≡ p)) ⊎ (lookup k m ≡ some p)
  listed m k p h =
      ground (arith, lookup-insert (id_of (add_peer generate_id stream w) n) k n m, own_id)

  pub listed_other :
      (m : List (Text × ℕ)) (p : ℕ)
      → p < n
      → lookup (generate_id p) m ≡ some p
      → lookup (generate_id p) (list_new m) ≡ some p
  listed_other m p small h =
      lookup-insert_ne (id_of (add_peer generate_id stream w) n) (generate_id p) n m
        (λ e. let same_peer = distinct n p (sym own_id ∙ e) in omega arith)
      ∙ h

  pub listed_self :
      (m : List (Text × ℕ)) (p : ℕ) → n ≡ p → lookup (generate_id p) (list_new m) ≡ some p
  listed_self m p e =
      lookup-insert_self (id_of (add_peer generate_id stream w) n) (generate_id p) n m
        (own_id ∙ ap generate_id e)
      ∙ ap some e

  module _ (pc' : Pc) (free : closes (t i) ≡ none) (now : held pc' ≡ some n)
      (taken : (p : ℕ) → closes pc' ≡ some p → p ≡ n) where
    pub here : held (update t i pc' i) ≡ some n
    here = rw ((==_iff i i).1 refl) now

    pub listed_registered :
        (m : List (Text × ℕ))
        → ((k : Text) (p : ℕ) → lookup k m ≡ some p → lookup k w.server.connections ≡ some p)
        → (k : Text) (p : ℕ) → lookup k (list_new m) ≡ some p
        → (k ≡ generate_id p) × Someone held (update t i pc') p
    listed_registered m old k p h = elim (listed m k p h) [
      | inl (name, e) ↦ (name, (i, here ∙ ap some e))
      | inr h' ↦
          let (name, owner) = inv.registered k p (old k p h') in
          (name, added-Someone generate_id inv i pc' free taken p owner)
    ]

  pub accept-Inv :
      t i ≡ idle → Inv generate_id (accept generate_id stream w) (update t i (serving accepted n))
  accept-Inv at =
      let pc' = serving accepted n in
      let free : closes (t i) ≡ none = ap closes at in
      let taken : (p : ℕ) → closes pc' ≡ some p → p ≡ n = λ p h. cc in
      let old = before ctx_of t i pc' (λ c h. absurd cc) in
      record {
        ids = added_ids generate_id inv i pc' free taken stream;
        live = inv.live;
        current = inv.current;
        ctx_range = λ j c h. inv.ctx_range j c (old j c h);
        ctx_unique = λ j k c h g. inv.ctx_unique j k c (old j c h) (old k c g);
        held_range = added_held_range generate_id inv i pc' free taken;
        held_unique = added_held_unique generate_id inv i pc' free taken;
        closes_range = added_closes_range generate_id inv i pc' free taken;
        shut = added_shut generate_id inv i pc' free taken stream refl;
        registered = listed_registered pc' free refl taken w.server.connections (λ k p h. h);
        client = λ p h.
            let (found, owner) = inv.client p h in
            (
              listed_other w.server.connections p (inv.held_range owner.0 p owner.2) found,
              added_owner generate_id inv i pc' free taken p owner,
            );
        accounted = added_accounted generate_id inv i pc' free taken stream refl;
      }
