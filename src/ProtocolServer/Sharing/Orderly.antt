-- ===== src/ProtocolServer/Sharing/Orderly.antt =====
-- Until the request ids wrap around, a call that waits has its entry or its response.
use sco.Common.{
  ℕ, suc, ◌+◌, ◌^◌, ◌<◌, ◌≤◌, ◌≡◌, ◌≢◌, ◌⊎◌, inl, inr, refl, sym, ap, subst, ◌∙◌, false, List, none,
  some, length, arith, ◌==◌, Bool-cases, Option-cases, ==_iff, ==_false→ne,
}
use sco.Common.Dict.{nat_key, lookup, lookup-delete_ne}
use sco.Common.Words.{u32}
use sco.Common.Family.{update}
use sco.Protocol.{Response}
use sco.ProtocolServer.Connection.{Attempt, write_frame_on}
use sco.ProtocolServer.Connection.Table.{write_frame_on-KeptOrClosed}
use sco.ProtocolServer.RequestIds.{next_request_id, free}
use sco.ProtocolServer.Send.{forget}
use sco.ProtocolServer.Sharing.{
  Ticket, Pc, idle, admitted, registered, awaiting, returning, reading, delivering, Shared,
  set_conn, take, deliver,
}
use sco.ProtocolServer.Sharing.Invariant.{ticket, expects, Mailed, Inv, Orderly}

-- Who expects a response holds the ticket.
pub expects-ticket : (pc : Pc) (k : Ticket) → expects pc ≡ some k → ticket pc ≡ some k
expects-ticket (registered l) k h = h
expects-ticket (awaiting l) k h = h
expects-ticket idle k h = absurd cc
expects-ticket admitted k h = absurd cc
expects-ticket (returning l r) k h = absurd cc

-- The entry of a call, or its response on the way
abbrev pub Covered : Shared → Ticket → Type 0
Covered w k =
    (lookup k.req_id w.conn.pending_cmds ≡ some k.waiter)
    ⊎ ((resp : Response) × Mailed w k.waiter resp)

-- The search takes the next id: no id so far is larger than the counter.
pub next_id :
    {w : Shared} {t : ℕ → Pc} (inv : Inv w t) (ord : Orderly w t) (id : ℕ)
    → w.started + 1 < 2 ^ 32
    → next_request_id
        (suc (length w.conn.pending_cmds))
        w.conn.request_id_counter
        w.conn.pending_cmds
      ≡ some id
    → id ≡ suc w.started
next_id {w} {t} inv ord id early h =
    let next = u32 (w.conn.request_id_counter + 1) in
    let value : next ≡ suc w.started = omega (arith, ord.counter) in
    elim (Option-cases (lookup next w.conn.pending_cmds)) [
      | inl e ↦
          cc (free (length w.conn.pending_cmds) w.conn.request_id_counter w.conn.pending_cmds e)
      | inr (v, e) ↦
          let (j, at_j) = inv.owned next v e in absurd (omega (arith, ord.id_range j _ at_j))
    ]

-- The same tickets, ids and counter; whoever still expects a response can still be reached.
pub same_ids :
    {w w' : Shared} {t t' : ℕ → Pc}
    → Orderly w t
    → w'.conn.request_id_counter ≡ w.conn.request_id_counter
    → w'.started ≡ w.started
    → ((j : ℕ) (k : Ticket) → ticket (t' j) ≡ some k → ticket (t j) ≡ some k)
    → ((j : ℕ) (k : Ticket)
        → w'.conn.closed ≡ false
        → expects (t' j) ≡ some k
        → (w.conn.closed ≡ false) × (expects (t j) ≡ some k) × (Covered w k → Covered w' k))
    → Orderly w' t'
same_ids ord same_counter same_started back goes = record {
  counter = same_counter ∙ ord.counter ∙ sym same_started;
  id_range = λ j k h. subst (λ n. k.req_id ≤ n) (sym same_started) (ord.id_range j k (back j k h));
  id_unique = λ i j k l h g. ord.id_unique i j k l (back i k h) (back j l g);
  awaited = λ j k open_yet h.
      let (was_open, old, keep) = goes j k open_yet h in keep (ord.awaited j k was_open old);
}

-- writeFrame on an open connection that stays open leaves the table.
pub write-Covered :
    (w : Shared) (a : Attempt) (frame : List ℕ) (k : Ticket)
    → (write_frame_on a w.conn frame).1.closed ≡ false
    → (w.conn.closed ≡ false)
      × (Covered w k → Covered (set_conn (write_frame_on a w.conn frame).1 w) k)
write-Covered w a frame k open_yet = elim (write_frame_on-KeptOrClosed a w.conn frame).1 [
  | inl (same, flag) ↦ (
    sym flag ∙ open_yet,
    λ r. elim r [ inl h ↦ inl (ap (lookup k.req_id) same ∙ h) | inr m ↦ inr m ],
  )
  | inr (_, gone) ↦ absurd cc
]

-- Another call's deferred delete
pub forget-Covered :
    (w : Shared) (id : ℕ) (k : Ticket)
    → id ≢ k.req_id
    → Covered w k
    → Covered (set_conn (forget id w.conn) w) k
forget-Covered w id k apart (inl h) =
    inl (lookup-delete_ne id k.req_id w.conn.pending_cmds apart ∙ h)
forget-Covered w id k apart (inr m) = inr m

-- The locked section of handleResponse moves an entry to the mail.
pub take-Covered :
    (w : Shared) (resp : Response) (v : ℕ) (k : Ticket)
    → w.reader ≡ reading
    → lookup resp.req_id w.conn.pending_cmds ≡ some v
    → Covered w k
    → Covered (take resp v w) k
take-Covered w resp v k at_rest found (inl h) = elim (Bool-cases (resp.req_id == k.req_id)) [
  | inl e ↦
      let same = (==_iff resp.req_id k.req_id).0 e in
      let mine : v ≡ k.waiter = cc in inr (resp, inr (cc))
  | inr e ↦ inl (
      lookup-delete_ne resp.req_id k.req_id w.conn.pending_cmds (==_false→ne resp.req_id k.req_id e)
      ∙ h)
]
take-Covered w resp v k at_rest found (inr (r, inl h)) = inr (r, inl h)
take-Covered w resp v k at_rest found (inr (r, inr h)) = absurd cc

-- The response arrives in a channel that was empty.
pub deliver-Covered :
    (w : Shared) (resp : Response) (v : ℕ) (k : Ticket)
    → w.reader ≡ delivering v resp
    → w.channels v ≡ none
    → Covered w k
    → Covered (deliver resp v w) k
deliver-Covered w resp v k flying room (inl h) = inl h
deliver-Covered w resp v k flying room (inr (r, inl h)) = elim (Bool-cases (v == k.waiter)) [
  | inl e ↦ absurd (cc (ap w.channels ((==_iff v k.waiter).0 e)))
  | inr e ↦ inr (r, inl (rw e h))
]
deliver-Covered w resp v k flying room (inr (r, inr h)) =
    let mine : v ≡ k.waiter = cc in inr (resp, inl (rw ((==_iff v k.waiter).1 mine) refl))

-- Another call takes its response out of its own channel.
pub receive-Covered :
    (w : Shared) (v : ℕ) (k : Ticket)
    → v ≢ k.waiter
    → Covered w k
    → Covered (record w { channels = update w.channels v none }) k
receive-Covered w v k apart (inl h) = inl h
receive-Covered w v k apart (inr (r, inl h)) = elim (Bool-cases (v == k.waiter)) [
  | inl e ↦ absurd (apart ((==_iff v k.waiter).0 e))
  | inr e ↦ inr (r, inl (rw e h))
]
receive-Covered w v k apart (inr (r, inr h)) = inr (r, inr h)
