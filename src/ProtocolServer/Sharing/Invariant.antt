-- ===== src/ProtocolServer/Sharing/Invariant.antt =====
-- What holds in every state that the goroutines of one connection reach.
use sco.Common.{ℕ, ◌<◌, ◌≤◌, ◌≡◌, ◌⊎◌, false, Option, none, some}
use sco.Common.Result.{ok, err}
use sco.Common.Dict.{nat_key, lookup}
use sco.Common.Family.{Someone}
use sco.Protocol.{Response}
use sco.ProtocolServer.Connection.{Waiter}
use sco.ProtocolServer.Sharing.{
  Ticket, Pc, idle, admitted, registered, awaiting, returning, delivering, Shared,
}

-- The ticket of a call that has registered and has not returned
abbrev pub ticket : Pc → Option Ticket
ticket idle = none
ticket admitted = none
ticket (registered k) = some k
ticket (awaiting k) = some k
ticket (returning k result) = some k

-- The ticket of a call that can still receive a response
abbrev pub expects : Pc → Option Ticket
expects idle = none
expects admitted = none
expects (registered k) = some k
expects (awaiting k) = some k
expects (returning k result) = none

-- The response with which a call returns, with its ticket
abbrev pub answer : Pc → Option (Ticket × Response)
answer idle = none
answer admitted = none
answer (registered k) = none
answer (awaiting k) = none
answer (returning k (err e)) = none
answer (returning k (ok resp)) = some (k, resp)

-- The response is in the channel, or on its way to it.
abbrev pub Mailed : Shared → Waiter → Response → Type 0
Mailed w v resp = (w.channels v ≡ some resp) ⊎ (w.reader ≡ delivering v resp)

pub record Inv (w : Shared) (t : ℕ → Pc) : Type 0 where
  pub range : (j : ℕ) (k : Ticket) → ticket (t j) ≡ some k → k.waiter < w.next_waiter
  pub unique :
      (i j : ℕ) (k l : Ticket)
      → ticket (t i) ≡ some k
      → ticket (t j) ≡ some l
      → k.waiter ≡ l.waiter
      → i ≡ j
  pub owned :
      (id v : ℕ)
      → lookup id w.conn.pending_cmds ≡ some v
      → Someone ticket t (record { req_id = id; waiter = v })
  pub vacant :
      (id v : ℕ) (resp : Response) → lookup id w.conn.pending_cmds ≡ some v → ¬ Mailed w v resp
  pub room : (v : ℕ) (resp : Response) → w.reader ≡ delivering v resp → w.channels v ≡ none
  pub fresh : (v : ℕ) (resp : Response) → w.next_waiter ≤ v → ¬ Mailed w v resp
  pub letters :
      (j : ℕ) (k : Ticket) (resp : Response)
      → ticket (t j) ≡ some k
      → Mailed w k.waiter resp
      → resp.req_id ≡ k.req_id
  pub answers :
      (j : ℕ) (k : Ticket) (resp : Response)
      → answer (t j) ≡ some (k, resp)
      → resp.req_id ≡ k.req_id

-- What holds besides as long as the request ids have not wrapped around.
pub record Orderly (w : Shared) (t : ℕ → Pc) : Type 0 where
  pub counter : w.conn.request_id_counter ≡ w.started
  pub id_range : (j : ℕ) (k : Ticket) → ticket (t j) ≡ some k → k.req_id ≤ w.started
  pub id_unique :
      (i j : ℕ) (k l : Ticket)
      → ticket (t i) ≡ some k
      → ticket (t j) ≡ some l
      → k.req_id ≡ l.req_id
      → i ≡ j
  pub awaited :
      (j : ℕ) (k : Ticket)
      → w.conn.closed ≡ false
      → expects (t j) ≡ some k
      → (lookup k.req_id w.conn.pending_cmds ≡ some k.waiter)
        ⊎ ((resp : Response) × Mailed w k.waiter resp)
