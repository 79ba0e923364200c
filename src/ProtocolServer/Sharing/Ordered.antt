-- ===== src/ProtocolServer/Sharing/Ordered.antt =====
-- Every step keeps the order of the request ids, until they wrap around.
use sco.Common.{
  ℕ, suc, ◌^◌, ◌<◌, ◌≤◌, ◌≡◌, ◌≢◌, ◌⊎◌, inl, inr, refl, sym, ap, subst, ◌∙◌, false, Option, none,
  some, arith,
}
use sco.Common.Dict.{nat_key, lookup-insert_self, lookup-insert_ne}
use sco.Common.Family.{update, who, before}
use sco.ProtocolServer.Connection.{Error, write_frame_on}
use sco.ProtocolServer.Send.{Caller}
use sco.ProtocolServer.Connection.Table.{write_frame_on-KeptOrClosed}
use sco.ProtocolServer.Sharing.{
  Ticket, Pc, idle, admitted, registered, Shared, register, sent_or_returning, Move, admit, enroll,
  write_command, receive, time_out, notice_close, finish, Event, route, pass_on, write_other,
  begin_close, end_close, System, pick, other,
}
use sco.ProtocolServer.Sharing.Invariant.{ticket, expects, Inv, Orderly}
use sco.ProtocolServer.Sharing.Registering.{registered_ticket}
use sco.ProtocolServer.Sharing.Orderly.{
  expects-ticket, Covered, next_id, same_ids, write-Covered, forget-Covered, take-Covered,
  deliver-Covered, receive-Covered,
}
use sco.ProtocolServer.Sharing.Moves.{
  sent_or_returning-ticket, Start, Reach, start, step, Reach-Inv,
}

sent_or_returning-expects :
    (caller : Caller) (k l : Ticket) (e : Option Error)
    → expects (sent_or_returning caller k e) ≡ some l
    → some k ≡ some l
sent_or_returning-expects caller k l none h = h
sent_or_returning-expects caller k l (some e) h = absurd cc

module _ {w : Shared} {t : ℕ → Pc} (inv : Inv w t) (ord : Orderly w t) (i : ℕ) where
  register-Orderly :
      (id : ℕ)
      → t i ≡ admitted
      → id ≡ suc w.started
      → Orderly
          (register id w)
          (update t i (registered (record { req_id = id; waiter = w.next_waiter })))
  register-Orderly id at new = record {
    counter = new;
    id_range = λ j k h. elim (registered_ticket inv i (ap ticket at) id j k h) [
      | inl (_, it) ↦ omega (arith, ap (λ x. x.req_id) it)
      | inr (_, old) ↦ omega (arith, ord.id_range j k old)
    ];
    id_unique = λ a b k l h g e. elim (registered_ticket inv i (ap ticket at) id a k h) [
      | inl (ia, it) ↦ elim (registered_ticket inv i (ap ticket at) id b l g) [
        | inl (ib, _) ↦ sym ia ∙ ib
        | inr (_, old) ↦ absurd (omega (arith, ord.id_range b l old, ap (λ x. x.req_id) it))
      ]
      | inr (_, old) ↦ elim (registered_ticket inv i (ap ticket at) id b l g) [
        | inl (_, it) ↦ absurd (omega (arith, ord.id_range a k old, ap (λ x. x.req_id) it))
        | inr (_, old') ↦ ord.id_unique a b k l old old' e
      ]
    ];
    awaited = λ j k open_yet h. elim (who expects t i _ j k h) [
      | inl (_, it) ↦
          let mine : id ≡ k.req_id = cc in
          let channel : w.next_waiter ≡ k.waiter = cc in
          inl (
            lookup-insert_self id k.req_id w.next_waiter w.conn.pending_cmds mine ∙ ap some channel)
      | inr (_, old) ↦ elim (ord.awaited j k open_yet old) [
        | inl e ↦ inl (
            lookup-insert_ne id k.req_id w.next_waiter w.conn.pending_cmds
              (λ p. omega (arith, ord.id_range j k (expects-ticket (t j) k old)))
            ∙ e)
        | inr m ↦ inr m
      ]
    ];
  }

  -- A step of a goroutine that goes on with its ticket, and that leaves the others as they are.
  goes_on :
      {w' : Shared} (pc' : Pc)
      → w'.conn.request_id_counter ≡ w.conn.request_id_counter
      → w'.started ≡ w.started
      → ((k : Ticket) → ticket pc' ≡ some k → ticket (t i) ≡ some k)
      → ((k : Ticket) → expects pc' ≡ some k → expects (t i) ≡ some k)
      → ((j : ℕ) (k : Ticket)
          → (expects pc' ≡ some k) ⊎ (i ≢ j)
          → expects (t j) ≡ some k
          → w'.conn.closed ≡ false
          → (w.conn.closed ≡ false) × (Covered w k → Covered w' k))
      → Orderly w' (update t i pc')
  goes_on pc' c s back expected keep =
      same_ids {t' = update t i pc'} ord c s (before ticket t i pc' back) (λ j k open_yet h.
        let old = before expects t i pc' expected j k h in
        let other : (expects pc' ≡ some k) ⊎ (i ≢ j) = elim (who expects t i pc' j k h) [
          | inl (_, g) ↦ inl g
          | inr (apart, _) ↦ inr apart
        ] in
        let (was_open, kept) = keep j k other old open_yet in (was_open, old, kept))

  pub Move-Orderly :
      {w' : Shared} {pc pc' : Pc}
      → t i ≡ pc
      → Move w pc w' pc'
      → w'.started < 2 ^ 32
      → Orderly w' (update t i pc')
  Move-Orderly at (admit open_yet) early =
      goes_on admitted refl refl (λ k h. absurd cc) (λ k h. absurd cc) (λ j k _ _ o. (o, λ r. r))
  Move-Orderly at (enroll req_id found) early =
      register-Orderly req_id at (next_id inv ord req_id (omega arith) found)
  Move-Orderly at (write_command {k} caller a cmd_data) early =
      let out = (write_frame_on a w.conn cmd_data).0 in
      let kept = (sent_or_returning-ticket caller k out).0 in
      goes_on (sent_or_returning caller k out) (write_frame_on-KeptOrClosed a w.conn cmd_data).0
        refl (λ l h. ap ticket at ∙ sym kept ∙ h)
        (λ l h. ap expects at ∙ sent_or_returning-expects caller k l out h)
        (λ j l _ _ o. write-Covered w a cmd_data l o)
  Move-Orderly at (receive {k} caller resp full) early =
      goes_on _ refl refl (λ l h. ap ticket at ∙ h) (λ l h. absurd cc)
        (λ j l apart old o. (
          o,
          receive-Covered w k.waiter l (λ e. elim apart [
            | inl g ↦ absurd cc
            | inr ne ↦ ne (inv.unique i j k l (ap ticket at) (expects-ticket (t j) l old) e)
          ]),
        ))
  Move-Orderly at (time_out {k} caller e) early =
      goes_on _ refl refl (λ l h. ap ticket at ∙ h) (λ l h. absurd cc) (λ j l _ _ o. (o, λ r. r))
  Move-Orderly at (notice_close {k} caller gone) early =
      goes_on _ refl refl (λ l h. ap ticket at ∙ h) (λ l h. absurd cc) (λ j l _ _ o. (o, λ r. r))
  Move-Orderly at (finish {k} {result}) early =
      goes_on idle refl refl (λ l h. absurd cc) (λ l h. absurd cc)
        (λ j l apart old o. (
          o,
          forget-Covered w k.req_id l (λ e. elim apart [
            | inl g ↦ absurd cc
            | inr ne ↦ ne (ord.id_unique i j k l (ap ticket at) (expects-ticket (t j) l old) e)
          ]),
        ))

pub other-Orderly : {w w' : Shared} {t : ℕ → Pc} → Orderly w t → Event w w' → Orderly w' t
other-Orderly {w} {w'} {t} ord (route resp {v} at_rest found) =
    same_ids {t' = t} ord refl refl (λ j k h. h)
      (λ j k o h. (o, h, take-Covered w resp v k at_rest found))
other-Orderly {w} {w'} {t} ord (pass_on {resp} {v} flying empty) =
    same_ids {t' = t} ord refl refl (λ j k h. h)
      (λ j k o h. (o, h, deliver-Covered w resp v k flying empty))
other-Orderly {w} {w'} {t} ord (write_other a frame) =
    same_ids {t' = t} ord (write_frame_on-KeptOrClosed a w.conn frame).0 refl (λ j k h. h)
      (λ j k o h. let (was_open, keep) = write-Covered w a frame k o in (was_open, h, keep))
other-Orderly {w} {w'} {t} ord begin_close =
    same_ids {t' = t} ord refl refl (λ j k h. h) (λ j k o h. absurd cc)
other-Orderly {w} {w'} {t} ord (end_close gone) =
    same_ids {t' = t} ord refl refl (λ j k h. h) (λ j k o h. absurd cc)

Start-Orderly : (s : System) → Start s → Orderly s.shared s.threads
Start-Orderly s b = record {
  counter = ap (λ c. c.request_id_counter) b.conn ∙ sym b.started;
  id_range = λ j k h. absurd (cc (ap ticket (b.threads j)));
  id_unique = λ i j k l h g e. absurd (cc (ap ticket (b.threads i)));
  awaited = λ j k o h. absurd (cc (ap expects (b.threads j)));
}

-- The number of registrations does not fall.
Move-started : {w w' : Shared} {pc pc' : Pc} → Move w pc w' pc' → w.started ≤ w'.started
Move-started (admit h) = omega arith
Move-started (enroll id h) = omega arith
Move-started (write_command caller a d) = omega arith
Move-started (receive caller r h) = omega arith
Move-started (time_out caller e) = omega arith
Move-started (notice_close caller h) = omega arith
Move-started finish = omega arith

other-started : {w w' : Shared} → Event w w' → w'.started ≡ w.started
other-started (route r h g) = refl
other-started (pass_on h g) = refl
other-started (write_other a f) = refl
other-started begin_close = refl
other-started (end_close h) = refl

pub Reach-Orderly : {s : System} → Reach s → s.shared.started < 2 ^ 32 → Orderly s.shared s.threads
Reach-Orderly (start b) early = Start-Orderly _ b
Reach-Orderly (step r (pick i m)) early =
    let was_early : _ < 2 ^ 32 = omega (arith, Move-started m) in
    Move-Orderly (Reach-Inv r) (Reach-Orderly r was_early) i refl m early
Reach-Orderly (step {s} r (other e)) early =
    other-Orderly (Reach-Orderly r (subst (λ n. n < 2 ^ 32) (other-started e) early)) e
