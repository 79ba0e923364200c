-- ===== src/ProtocolServer/Sharing/Safety.antt =====
-- What the users of a connection rely on, whatever its goroutines do in whatever order.
use sco.Common.{ℕ, ◌<◌, ◌^◌, ◌≡◌, ◌⊎◌, inl, inr, refl, ap, false, List, [], ◌∷◌, none, some, arith}
use sco.Common.Result.{ok}
use sco.Common.Dict.{nat_key, lookup}
use sco.Protocol.{Response}
use sco.ProtocolServer.Connection.{Waiter}
use sco.ProtocolServer.Sharing.{
  Ticket, awaiting, returning, delivering, deliver, System, Step, pass_on, other,
}
use sco.ProtocolServer.Sharing.Invariant.{ticket, expects, answer, Mailed}
use sco.ProtocolServer.Sharing.Moves.{Reach, Reach-Inv}
use sco.ProtocolServer.Sharing.Ordered.{Reach-Orderly}

-- In every state reached, a call of sendCmd that is about to return a response returns one that
-- carries the request id under which this call registered.
pub own_response :
    {s : System}
    → Reach s
    → (i : ℕ) (k : Ticket) (resp : Response) → s.threads i ≡ returning k (ok resp)
    → resp.req_id ≡ k.req_id
own_response reached i k resp at = (Reach-Inv reached).answers i k resp (ap answer at)

-- In every state reached, when the reader is about to send a response to a channel, the channel is
-- empty, so that the step is possible: handleResponse never blocks the loop that reads.
pub reader_never_blocks :
    {s : System}
    → Reach s
    → (v : Waiter) (resp : Response) → s.shared.reader ≡ delivering v resp
    → (s.shared.channels v ≡ none)
      × Step s (record { shared = deliver resp v s.shared; threads = s.threads })
reader_never_blocks reached v resp flying =
    let empty = (Reach-Inv reached).room v resp flying in (empty, other (pass_on flying empty))

no_entries :
    (pending : List (ℕ × Waiter)) → ((id v : ℕ) → ¬ (lookup id pending ≡ some v)) → pending ≡ []
unfolding lookup
no_entries [] h = refl
no_entries ((id, v) ∷ pending) h = absurd (h id v (ground arith))

-- In every state reached, when no call of sendCmd is between its registration and its return, no
-- command is pending, also when a call registered after close had cleared the table.
pub quiet-NonePending :
    {s : System}
    → Reach s
    → ((i : ℕ) → ticket (s.threads i) ≡ none)
    → s.shared.conn.pending_cmds ≡ []
quiet-NonePending {s} reached calm =
    no_entries s.shared.conn.pending_cmds
      (λ id v h. let (i, at) = (Reach-Inv reached).owned id v h in cc (calm i))

-- In every state reached before the 2^32nd registration, two calls in progress with the same request
-- id are the same call.
pub ids-distinct :
    {s : System}
    → Reach s
    → s.shared.started < 2 ^ 32
    → (i j : ℕ) (k l : Ticket) → ticket (s.threads i) ≡ some k
    → ticket (s.threads j) ≡ some l
    → k.req_id ≡ l.req_id
    → i ≡ j
ids-distinct reached early = (Reach-Orderly reached early).id_unique

-- In every state reached before the 2^32nd registration, as long as the connection is open, a call
-- that waits is pending under its id with its channel, or a response to this id is in its channel or
-- on the way to it: no response to it can be missed.
pub waiting-Covered :
    {s : System}
    → Reach s
    → s.shared.started < 2 ^ 32
    → (i : ℕ) (k : Ticket) → s.shared.conn.closed ≡ false
    → s.threads i ≡ awaiting k
    → (lookup k.req_id s.shared.conn.pending_cmds ≡ some k.waiter)
      ⊎ ((resp : Response) × (resp.req_id ≡ k.req_id) × Mailed s.shared k.waiter resp)
waiting-Covered reached early i k open_yet at =
    elim ((Reach-Orderly reached early).awaited i k open_yet (ap expects at)) [
      | inl e ↦ inl e
      | inr (resp, m) ↦ inr (resp, (Reach-Inv reached).letters i k resp (ap ticket at) m, m)
    ]
