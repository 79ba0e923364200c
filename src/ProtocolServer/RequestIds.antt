-- ===== src/ProtocolServer/RequestIds.antt =====
-- The choice of a request id in sendCmd of protocol/pkg/protocolserver/server.go.
use sco.Common.{
  ℕ, zero, suc, ◌+◌, ◌^◌, ◌≤◌, ◌<◌, ◌≡◌, ◌≢◌, refl, sym, ◌∙◌, List, [], ◌∷◌, Option, none, some,
  arith, length, inl, inr, Option-cases,
}
use sco.Common.Words.{u32}
use sco.Common.Dict.{nat_key, lookup, delete, lookup-delete_ne}
use sco.ProtocolServer.Connection.{Waiter}

-- cmd.ReqID = counter.Add(1); for pendingCmds[cmd.ReqID] != nil { cmd.ReqID = counter.Add(1) }
-- The id is the counter's new value too; `none` means that the fuel ran out.
unfoldable pub next_request_id : ℕ → ℕ → List (ℕ × Waiter) → Option ℕ
unfolding lookup
next_request_id zero counter pending = none
next_request_id (suc fuel) counter pending =
    let id = u32 (counter + 1) in
    elim (lookup id pending) [ none ↦ some id | some w ↦ next_request_id fuel id pending ]

found :
    (fuel counter : ℕ) (pending : List (ℕ × Waiter)) (w : Waiter)
    → lookup (u32 (counter + 1)) pending ≡ some w
    → next_request_id (suc fuel) counter pending ≡ next_request_id fuel (u32 (counter + 1)) pending
unfolding next_request_id
found fuel counter pending w e = rw (e, next_request_id)

-- A free id is taken.
pub free :
    (fuel counter : ℕ) (pending : List (ℕ × Waiter))
    → lookup (u32 (counter + 1)) pending ≡ none
    → next_request_id (suc fuel) counter pending ≡ some (u32 (counter + 1))
unfolding next_request_id
free fuel counter pending e = rw (e, next_request_id)

-- The id that was chosen is a uint32, and no command is pending under it.
pub next_request_id-fresh :
    (fuel counter id : ℕ) (pending : List (ℕ × Waiter))
    → next_request_id fuel counter pending ≡ some id
    → (lookup id pending ≡ none) × (id < 2 ^ 32)
next_request_id-fresh zero counter id pending h = unfold next_request_id in cc
next_request_id-fresh (suc fuel) counter id pending h =
    elim (Option-cases (lookup (u32 (counter + 1)) pending)) [
      | inl e ↦ ground (arith, free fuel counter pending e)
      | inr (w, e) ↦
          next_request_id-fresh fuel (u32 (counter + 1)) id pending
            (sym (found fuel counter pending w e) ∙ h)
    ]

-- An entry that the rounds do not reach does not matter to them.
next_request_id-delete :
    (fuel counter x : ℕ) (pending : List (ℕ × Waiter))
    → ((i : ℕ) → i < fuel → u32 (counter + 1 + i) ≢ x)
    → next_request_id fuel counter pending ≡ next_request_id fuel counter (delete x pending)
next_request_id-delete zero counter x pending apart = unfold next_request_id in refl
next_request_id-delete (suc fuel) counter x pending apart =
    let id = u32 (counter + 1) in
    let same_id : lookup id (delete x pending) ≡ lookup id pending =
      lookup-delete_ne x id pending (λ p. apart 0 (omega arith) (omega arith)) in
    elim (Option-cases (lookup id pending)) [
      | inl e ↦
          free fuel counter pending e ∙ sym (free fuel counter (delete x pending) (same_id ∙ e))
      | inr (w, e) ↦
          found fuel counter pending w e
          ∙ next_request_id-delete fuel id x pending
              (λ i h p. apart (suc i) (omega arith) (omega arith))
          ∙ sym (found fuel counter (delete x pending) w (same_id ∙ e))
    ]

length-delete-le :
    (k : ℕ) (pending : List (ℕ × Waiter)) → length (delete k pending) ≤ length pending
unfolding delete
length-delete-le k [] = omega arith
length-delete-le k ((j, v) ∷ pending) = ground (arith, length-delete-le k pending)

length-delete-lt :
    (k : ℕ) (w : Waiter) (pending : List (ℕ × Waiter))
    → lookup k pending ≡ some w
    → length (delete k pending) < length pending
unfolding lookup delete
length-delete-lt k w [] h = cc
length-delete-lt k w ((j, v) ∷ pending) h =
    ground (arith, length-delete-le k pending, length-delete-lt k w pending)

-- The search for an id ends: with n commands pending, and n below 2^32, n + 1 rounds are enough.
pub next_request_id-ends :
    (n counter : ℕ) (pending : List (ℕ × Waiter))
    → length pending ≤ n
    → n < 2 ^ 32
    → next_request_id (suc n) counter pending ≢ none
next_request_id-ends zero counter pending few small =
    elim (Option-cases (lookup (u32 (counter + 1)) pending)) [
      | inl e ↦ λ p. cc (free 0 counter pending e)
      | inr (w, e) ↦ absurd (omega (arith, length-delete-lt (u32 (counter + 1)) w pending e))
    ]
next_request_id-ends (suc n) counter pending few small =
    let id = u32 (counter + 1) in
    elim (Option-cases (lookup id pending)) [
      | inl e ↦ λ p. cc (free (suc n) counter pending e)
      | inr (w, e) ↦ λ p.
          next_request_id-ends n id (delete id pending)
            (omega (arith, length-delete-lt id w pending e)) (omega arith)
            (sym (next_request_id-delete (suc n) id id pending (λ i h q. omega arith))
              ∙ sym (found (suc n) counter pending w e)
              ∙ p)
    ]
