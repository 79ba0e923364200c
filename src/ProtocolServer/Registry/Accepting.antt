-- ===== src/ProtocolServer/Registry/Accepting.antt =====
-- The accepting side: Start registers every connection that it accepts.
use sco.Common.{
  ℕ, ◌+◌, ◌<◌, ◌≤◌, ◌≡◌, ◌⊎◌, inl, inr, refl, sym, ap, ◌∙◌, List, [], ◌∷◌, some, arith, ◌==◌,
  Bool-cases, ==_iff, ==_false→ne,
}
use sco.Common.Result.{Result, ok, err}
use sco.Common.Text.{Text}
use sco.Common.Dict.{text_key, lookup, lookup-insert_self, lookup-insert_ne}
use sco.Protocol.Frame.{Stream}
use sco.ProtocolServer.Registry.{World, id_of, accept, accept_all, target_of}

-- How many connections Accept has returned
abbrev pub accepted : List (Result Text Stream) → ℕ
accepted [] = 0
accepted (err e ∷ conns) = accepted conns
accepted (ok stream ∷ conns) = accepted conns + 1

module _ (generate_id : ℕ → Text)
    (distinct : (p q : ℕ) → generate_id p ≡ generate_id q → p ≡ q) where
  -- A new connection is found under its id, and those before still are.
  accept-found :
      (stream : Stream) (w : World) (p : ℕ)
      → (p ≡ w.next_peer) ⊎ (lookup (generate_id p) w.server.connections ≡ some p)
      → lookup (generate_id p) (accept generate_id stream w).server.connections ≡ some p
  accept-found stream w p h =
      let n = w.next_peer in
      let w' = accept generate_id stream w in
      let own : id_of w' n ≡ generate_id n = rw ((==_iff n n).1 refl, id_of) refl in
      elim (Bool-cases (n == p)) [
        | inl e ↦
            let same = (==_iff n p).0 e in
            lookup-insert_self (id_of w' n) (generate_id p) n w.server.connections
              (own ∙ ap generate_id same)
            ∙ ap some same
        | inr e ↦
            let apart = ==_false→ne n p e in
            lookup-insert_ne (id_of w' n) (generate_id p) n w.server.connections
              (λ q. apart (distinct n p (sym own ∙ q)))
            ∙ elim h [ inl same ↦ absurd (apart (sym same)) | inr old ↦ old ]
      ]

  accept_all-lookup :
      (conns : List (Result Text Stream)) (w : World) (p : ℕ)
      → ((w.next_peer ≤ p) × (p < w.next_peer + accepted conns))
        ⊎ (lookup (generate_id p) w.server.connections ≡ some p)
      → lookup (generate_id p) (accept_all generate_id conns w).server.connections ≡ some p
  unfolding accept_all
  accept_all-lookup [] w p (inl (low, high)) = absurd (omega arith)
  accept_all-lookup [] w p (inr h) = h
  accept_all-lookup (err e ∷ conns) w p h = accept_all-lookup conns w p h
  accept_all-lookup (ok stream ∷ conns) w p h =
      let w' = accept generate_id stream w in
      accept_all-lookup conns w' p (elim (Bool-cases (p == w.next_peer)) [
        | inl e ↦ inr (accept-found stream w p (inl ((==_iff p w.next_peer).0 e)))
        | inr e ↦ elim h [
          | inl (low, high) ↦
              let apart = ==_false→ne p w.next_peer e in inl (omega arith, omega arith)
          | inr old ↦ inr (accept-found stream w p (inr old))
        ]
      ])

  -- With ids that are distinct: whatever Accept returns, errors between connections included, the
  -- loop of Start registers as many connections as it accepts, each under its own id, where
  -- SendCmdToContext finds it.
  pub accept_all-found :
      (conns : List (Result Text Stream)) (w : World) (p : ℕ)
      → w.next_peer ≤ p
      → p < w.next_peer + accepted conns
      → target_of (generate_id p) (accept_all generate_id conns w) ≡ ok p
  unfolding target_of
  accept_all-found conns w p low high =
      rw (accept_all-lookup conns w p (inl (low, high)), target_of) refl
