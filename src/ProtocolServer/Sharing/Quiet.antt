-- ===== src/ProtocolServer/Sharing/Quiet.antt =====
-- The steps that make no call and no delivery keep the invariant.
use sco.Common.{ℕ, ◌<◌, ◌≤◌, ◌≡◌, inl, inr, sym, ap, subst, ◌∙◌, none, some}
use sco.Common.Dict.{nat_key, lookup}
use sco.Common.Family.{update, Someone, still, who, before}
use sco.Protocol.{Response}
use sco.ProtocolServer.Sharing.{Ticket, Pc, delivering, Shared}
use sco.ProtocolServer.Sharing.Invariant.{ticket, answer, Mailed, Inv}

-- No entry and no response comes in, and the channels keep their room.
pub record Ages (w w' : Shared) : Type 0 where
  pub next_waiter : w'.next_waiter ≡ w.next_waiter
  pub pending :
      (id v : ℕ) → lookup id w'.conn.pending_cmds ≡ some v → lookup id w.conn.pending_cmds ≡ some v
  pub mail : (v : ℕ) (resp : Response) → Mailed w' v resp → Mailed w v resp
  pub room :
      ((v : ℕ) (resp : Response) → w.reader ≡ delivering v resp → w.channels v ≡ none)
      → (v : ℕ) (resp : Response) → w'.reader ≡ delivering v resp
      → w'.channels v ≡ none

module _ {w w' : Shared} {t t' : ℕ → Pc} (inv : Inv w t) (ages : Ages w w') where
  -- The goroutines hold no more tickets than before, and those of the entries still.
  pub Ages-Inv :
      ((j : ℕ) (k : Ticket) → ticket (t' j) ≡ some k → ticket (t j) ≡ some k)
      → ((id v : ℕ)
          → lookup id w'.conn.pending_cmds ≡ some v
          → Someone ticket t' (record { req_id = id; waiter = v }))
      → ((j : ℕ) (k : Ticket) (resp : Response)
          → answer (t' j) ≡ some (k, resp)
          → resp.req_id ≡ k.req_id)
      → Inv w' t'
  Ages-Inv back owned answers = record {
    range = λ j k h. subst (λ n. k.waiter < n) (sym ages.next_waiter) (inv.range j k (back j k h));
    unique = λ i j k l h g. inv.unique i j k l (back i k h) (back j l g);
    owned = owned;
    vacant = λ id v resp h m. inv.vacant id v resp (ages.pending id v h) (ages.mail v resp m);
    room = ages.room inv.room;
    fresh =
        λ v resp h m. inv.fresh v resp (subst (λ n. n ≤ v) ages.next_waiter h) (ages.mail v resp m);
    letters = λ j k resp h m. inv.letters j k resp (back j k h) (ages.mail k.waiter resp m);
    answers = answers;
  }

-- The same goroutines
pub Event-Inv : {w w' : Shared} {t : ℕ → Pc} → Inv w t → Ages w w' → Inv w' t
Event-Inv inv ages =
    Ages-Inv inv ages (λ j k h. h) (λ id v h. inv.owned id v (ages.pending id v h)) inv.answers

-- One goroutine goes on with its ticket, and with no answer but one to its own request.
pub same_ticket :
    {w w' : Shared} {t : ℕ → Pc} (i : ℕ) (pc' : Pc)
    → Inv w t
    → Ages w w'
    → ticket pc' ≡ ticket (t i)
    → ((k : Ticket) (resp : Response) → answer pc' ≡ some (k, resp) → resp.req_id ≡ k.req_id)
    → Inv w' (update t i pc')
same_ticket {w} {w'} {t} i pc' inv ages same own =
    Ages-Inv inv ages (before ticket t i pc' (λ k h. sym same ∙ h))
      (λ id v h. still ticket t i pc' _ (λ g. same ∙ g) (inv.owned id v (ages.pending id v h)))
      (λ j k resp h. elim (who answer t i pc' j (k, resp) h) [
        | inl (e, g) ↦ own k resp g
        | inr (e, g) ↦ inv.answers j k resp g
      ])

-- The connection changes in its table at most, which shrinks.
pub set_conn-Ages :
    {w w' : Shared}
    → w'.next_waiter ≡ w.next_waiter
    → w'.channels ≡ w.channels
    → w'.reader ≡ w.reader
    → ((id v : ℕ)
        → lookup id w'.conn.pending_cmds ≡ some v
        → lookup id w.conn.pending_cmds ≡ some v)
    → Ages w w'
set_conn-Ages n c r shrinks = record {
  next_waiter = n;
  pending = shrinks;
  mail = λ v resp m. elim m [ inl h ↦ inl (ap (λ f. f v) (sym c) ∙ h) | inr h ↦ inr (sym r ∙ h) ];
  room = λ before_it v resp h. ap (λ f. f v) c ∙ before_it v resp (sym r ∙ h);
}
