-- ===== src/ProtocolServer/Connection/Framing.antt =====
-- The calls of writeFrame on one connection, one after the other (the mutex of the connection), and
-- the bytes that the peer gets from them.
use sco.Common.{
  ℕ, ◌≡◌, ◌⊎◌, refl, sym, ap, ◌∙◌, true, List, [], ◌∷◌, ◌++◌, map, Option, none, some, append-nil,
  append_assoc, inl, inr, Option-cases,
}
use mathlib.Core.List.{Mem, mem-cons}
use mathlib.Core.Logic.Or
use sco.Protocol.Frame.{frame_layout}
use sco.ProtocolServer.Connection.{Connection, Attempt, Error, write_frame_on}
use sco.ProtocolServer.Connection.Outcome.{write_frame_on-WholeOrClosed}

-- What the calls return, and the connection that they leave.
abbrev pub write_all : List (Attempt × List ℕ) → Connection → List (Option Error) × Connection
write_all [] c = ([], c)
write_all ((a, payload) ∷ writes) c =
    let r = write_frame_on a c payload in let rest = write_all writes r.1 in (r.0 ∷ rest.0, rest.1)

-- The frames of the calls that returned no error
abbrev pub accepted : List (Attempt × List ℕ) → List (Option Error) → List ℕ
accepted [] rs = []
accepted (w ∷ writes) [] = []
accepted ((a, payload) ∷ writes) (none ∷ rs) = frame_layout payload ++ accepted writes rs
accepted (w ∷ writes) (some e ∷ rs) = accepted writes rs

-- The peer gets the accepted frames, whole and in their order, and then at most a part of one frame
-- more, after which the connection is closed.
abbrev pub Framed : List (Attempt × List ℕ) → Connection → List (Option Error) × Connection → Type 0
Framed writes c r =
    (part : List ℕ) × (r.1.sent ≡ c.sent ++ (accepted writes r.0 ++ part))
    × ((part ≡ [])
        ⊎ ((r.1.closed ≡ true)
            × ((payload rest : List ℕ) × Mem payload (map (λ w. w.1) writes)
                × (frame_layout payload ≡ part ++ rest))))

-- writeFrame on a closed connection returns an error and changes nothing.
write_frame_on-closed :
    (a : Attempt) (c : Connection) (payload : List ℕ)
    → c.closed ≡ true
    → (e : Error) × (write_frame_on a c payload ≡ (some e, c))
unfolding write_frame_on
write_frame_on-closed a c payload h = elim (Option-cases a.ctx_before) [
  | inl e ↦ rw (e, h, write_frame_on) (_, refl)
  | inr (x, e) ↦ rw (e, write_frame_on) (_, refl)
]

-- Nothing goes out after the connection was closed.
write_all-closed :
    (writes : List (Attempt × List ℕ)) (c : Connection)
    → c.closed ≡ true
    → ((write_all writes c).1 ≡ c) × (accepted writes (write_all writes c).0 ≡ [])
write_all-closed [] c h = (refl, refl)
write_all-closed ((a, payload) ∷ writes) c h =
    let (e, stops) = write_frame_on-closed a c payload h in rw stops (write_all-closed writes c h)

-- One call more at the front, which sent nothing
unsent :
    (payload : List ℕ) (a : Attempt) (writes : List (Attempt × List ℕ)) (c d : Connection)
    (e : Error) (r : List (Option Error) × Connection)
    → d.sent ≡ c.sent
    → Framed writes d r
    → Framed ((a, payload) ∷ writes) c (some e ∷ r.0, r.1)
unsent payload a writes c d e r h (part, sent, inl p) =
    (part, sent ∙ ap (λ s. s ++ (accepted writes r.0 ++ part)) h, inl p)
unsent payload a writes c d e r h (part, sent, inr (shut, (p, rest, m, split))) = (
  part,
  sent ∙ ap (λ s. s ++ (accepted writes r.0 ++ part)) h,
  inr (shut, (p, rest, mem-cons.1 (Or.inr m), split)),
)

-- One call more at the front, whose frame went out
sent_whole :
    (payload : List ℕ) (a : Attempt) (writes : List (Attempt × List ℕ)) (c : Connection)
    (r : List (Option Error) × Connection)
    → Framed writes (record c { sent = c.sent ++ frame_layout payload }) r
    → Framed ((a, payload) ∷ writes) c (none ∷ r.0, r.1)
sent_whole payload a writes c r (part, sent, ends) =
    let front = frame_layout payload in
    let joined : (c.sent ++ front) ++ (accepted writes r.0 ++ part)
        ≡ c.sent ++ ((front ++ accepted writes r.0) ++ part) =
      append_assoc c.sent front (accepted writes r.0 ++ part)
      ∙ ap (λ s. c.sent ++ s) (sym (append_assoc front (accepted writes r.0) part)) in
    (
      part,
      sent ∙ joined,
      elim ends [
        | inl p ↦ inl p
        | inr (shut, (p, rest, m, split)) ↦ inr (shut, (p, rest, mem-cons.1 (Or.inr m), split))
      ],
    )

-- Any calls of writeFrame on a connection, one after the other, whatever the network does meanwhile:
-- behind what had been sent before, the peer gets the frames of the calls that returned no error,
-- whole and in the order of the calls, and then nothing more, or a part from the front of the frame
-- of one of the calls, and in that case the connection is closed. So a cut frame is the last one.
pub write_all-Framed :
    (writes : List (Attempt × List ℕ)) (c : Connection) → Framed writes c (write_all writes c)
write_all-Framed [] c = ([], sym (append-nil c.sent), inl refl)
write_all-Framed ((a, payload) ∷ writes) c = elim (write_frame_on-WholeOrClosed a c payload) [
  | inl whole ↦
      let d : Connection = record c { sent = c.sent ++ frame_layout payload } in
      rw whole (sent_whole payload a writes c (write_all writes d) (write_all-Framed writes d))
  | inr (e, part, rest, fails, split, sent, inl p) ↦
      let d = (write_frame_on a c payload).1 in
      rw fails (
        unsent payload a writes c d e (write_all writes d)
          (sent ∙ (ap (λ q. c.sent ++ q) p ∙ append-nil c.sent)) (write_all-Framed writes d))
  | inr (e, part, rest, fails, split, sent, inr shut) ↦
      let d = (write_frame_on a c payload).1 in
      let (same, silent) = write_all-closed writes d shut in
      rw fails (
        part,
        ap (λ k. k.sent) same ∙ (sent ∙ ap (λ s. c.sent ++ (s ++ part)) (sym silent)),
        inr (ap (λ k. k.closed) same ∙ shut, (payload, rest, mem-cons.1 (Or.inl refl), split)),
      )
]
