-- ===== src/ProtocolServer/Sharing/Moves.antt =====
-- Every step of the goroutines of a connection keeps the invariant.
use sco.Common.{ℕ, ◌≡◌, inl, inr, refl, sym, ap, ◌∙◌, List, Option, none, some}
use sco.Common.Result.{Result}
use sco.Common.Dict.{nat_key, lookup}
use sco.Common.Family.{update, who, before, still}
use sco.Protocol.{Response}
use sco.Protocol.Frame.{Stream}
use sco.Common.Text.{Text}
use sco.ProtocolServer.Connection.{Connection, Attempt, Error, new_connection, write_frame_on}
use sco.ProtocolServer.Connection.Table.{KeptOrClosed, write_frame_on-KeptOrClosed}
use sco.ProtocolServer.Send.{Caller, end_send, forget}
use sco.ProtocolServer.Sharing.{
  Ticket, Pc, idle, admitted, returning, reading, Shared, set_conn, sent_or_returning, Move, admit,
  enroll, write_command, receive, time_out, notice_close, finish, Event, route, pass_on,
  write_other, begin_close, end_close, System, Step, pick, other,
}
use sco.ProtocolServer.Sharing.Invariant.{ticket, answer, Inv}
use sco.ProtocolServer.Sharing.Quiet.{Ages, Ages-Inv, Event-Inv, same_ticket, set_conn-Ages}
use sco.ProtocolServer.Sharing.Registering.{register-Inv}
use sco.ProtocolServer.Sharing.Routing.{forgotten, take-Inv, deliver-Ages, receive-Ages}

KeptOrClosed-shrinks :
    (c d : Connection) (id v : ℕ)
    → KeptOrClosed c d
    → lookup id d.pending_cmds ≡ some v
    → lookup id c.pending_cmds ≡ some v
unfolding lookup
KeptOrClosed-shrinks c d id v (_, inl (same, _)) h = ap (lookup id) (sym same) ∙ h
KeptOrClosed-shrinks c d id v (_, inr (gone, _)) h = absurd (cc (ap (lookup id) gone))

pub write-Ages :
    (w : Shared) (a : Attempt) (frame : List ℕ)
    → Ages w (set_conn (write_frame_on a w.conn frame).1 w)
write-Ages w a frame = set_conn-Ages refl refl refl (λ id v.
    KeptOrClosed-shrinks w.conn (write_frame_on a w.conn frame).1 id v
      (write_frame_on-KeptOrClosed a w.conn frame))

Ages-refl : (w : Shared) → Ages w w
Ages-refl w = set_conn-Ages refl refl refl (λ id v h. h)

pub sent_or_returning-ticket :
    (caller : Caller) (k : Ticket) (e : Option Error)
    → (ticket (sent_or_returning caller k e) ≡ some k)
      × (answer (sent_or_returning caller k e) ≡ none)
sent_or_returning-ticket caller k none = (refl, refl)
sent_or_returning-ticket caller k (some e) = (refl, refl)

module _ {w : Shared} {t : ℕ → Pc} (inv : Inv w t) (i : ℕ) where
  -- The deferred delete
  finish-Inv :
      (k : Ticket) (result : Result Error Response)
      → t i ≡ returning k result
      → Inv (set_conn (forget k.req_id w.conn) w) (update t i idle)
  finish-Inv k result at =
      Ages-Inv {t' = update t i idle} inv
        (set_conn-Ages refl refl refl (λ id v h. (forgotten k.req_id id v w.conn h).1))
        (before ticket t i idle (λ l h. absurd cc))
        (λ id v h.
          let (apart, old) = forgotten k.req_id id v w.conn h in
          still ticket t i idle _
            (λ g. let here : some k ≡ some _ = sym (ap ticket at) ∙ g in absurd (apart (cc)))
            (inv.owned id v old))
        (λ j l resp h. elim (who answer t i idle j (l, resp) h) [
          | inl (_, g) ↦ absurd cc
          | inr (_, g) ↦ inv.answers j l resp g
        ])

  pub Move-Inv : {w' : Shared} {pc pc' : Pc} → t i ≡ pc → Move w pc w' pc' → Inv w' (update t i pc')
  unfolding end_send
  Move-Inv at (admit open_yet) =
      same_ticket i admitted inv (Ages-refl w) (sym (ap ticket at)) (λ k resp h. absurd cc)
  Move-Inv at (enroll req_id found) = register-Inv inv i (ap ticket at) req_id
  Move-Inv at (write_command {k} caller a cmd_data) =
      let (kept, unanswered) =
        sent_or_returning-ticket caller k (write_frame_on a w.conn cmd_data).0 in
      same_ticket i _ inv (write-Ages w a cmd_data) (kept ∙ sym (ap ticket at))
        (λ l resp h. absurd (cc))
  Move-Inv at (receive {k} caller resp full) =
      same_ticket i _ inv (receive-Ages k.waiter) (sym (ap ticket at)) (λ l r h.
        let it : resp ≡ r = cc in
        let mine : k ≡ l = cc in let fits = inv.letters i k resp (ap ticket at) (inl full) in cc)
  Move-Inv at (time_out {k} caller e) =
      same_ticket i _ inv (Ages-refl w) (sym (ap ticket at)) (λ l r h. absurd cc)
  Move-Inv at (notice_close {k} caller gone) =
      same_ticket i _ inv (Ages-refl w) (sym (ap ticket at)) (λ l r h. absurd cc)
  Move-Inv at (finish {k} {result}) = finish-Inv k result at

pub other-Inv : {w w' : Shared} {t : ℕ → Pc} → Inv w t → Event w w' → Inv w' t
unfolding lookup
other-Inv inv (route resp {v} at_rest found) = take-Inv inv resp v at_rest found
other-Inv inv (pass_on {resp} {v} flying empty) = Event-Inv inv (deliver-Ages resp v flying)
other-Inv {w} inv (write_other a frame) = Event-Inv inv (write-Ages w a frame)
other-Inv inv begin_close = Event-Inv inv (set_conn-Ages refl refl refl (λ id v h. h))
other-Inv inv (end_close gone) = Event-Inv inv (set_conn-Ages refl refl refl (λ id v h. absurd cc))

-- The states that the goroutines of a new connection reach
pub record Start (s : System) : Type 0 where
  pub id : Text
  pub stream : Stream
  pub conn : s.shared.conn ≡ new_connection id stream
  pub channels : (v : ℕ) → s.shared.channels v ≡ none
  pub reader : s.shared.reader ≡ reading
  pub started : s.shared.started ≡ 0
  pub threads : (i : ℕ) → s.threads i ≡ idle

pub data Reach : System → Type 0 where
  start : {s : System} → Start s → Reach s
  step : {s s' : System} → Reach s → Step s s' → Reach s'

Start-Inv : (s : System) → Start s → Inv s.shared s.threads
unfolding lookup
Start-Inv s b = record {
  range = λ j k h. absurd (cc (ap ticket (b.threads j)));
  unique = λ i j k l h g e. absurd (cc (ap ticket (b.threads i)));
  owned = λ id v h. absurd (cc (ap (λ c. lookup id c.pending_cmds) b.conn));
  vacant = λ id v resp h. absurd (cc (ap (λ c. lookup id c.pending_cmds) b.conn));
  room = λ v resp h. b.channels v;
  fresh = λ v resp h m. elim m [
    | inl full ↦ absurd (cc (b.channels v))
    | inr flying ↦ absurd (cc (b.reader))
  ];
  letters = λ j k resp h m. absurd (cc (ap ticket (b.threads j)));
  answers = λ j k resp h. absurd (cc (ap answer (b.threads j)));
}

pub Reach-Inv : {s : System} → Reach s → Inv s.shared s.threads
Reach-Inv (start b) = Start-Inv _ b
Reach-Inv (step r (pick i m)) = Move-Inv (Reach-Inv r) i refl m
Reach-Inv (step r (other e)) = other-Inv (Reach-Inv r) e
