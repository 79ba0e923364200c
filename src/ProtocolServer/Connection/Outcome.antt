-- ===== src/ProtocolServer/Connection/Outcome.antt =====
-- What writeFrame leaves of a connection, whatever the network does meanwhile.
use sco.Common.{
  ◌≡◌, ◌⊎◌, refl, sym, subst, ◌∙◌, true, false, List, [], ◌++◌, Option, none, some, append-nil, inl,
  inr, arith, ℕ, Bool-cases, Option-cases,
}
use sco.Protocol.Frame.{WriteError, Written, frame_layout, write_frame}
use sco.Protocol.Frame.Writes.{Sends, write_frame-Sends}
use sco.ProtocolServer.Connection.{
  Connection, Attempt, Error, write, close, after_frame, write_frame_on,
}

-- The frame went out whole and without an error, and the connection changed in nothing else; or
-- there is an error, a part from the front of the frame went out, and the connection is closed
-- unless that part is empty.
abbrev pub WholeOrClosed : Connection → List ℕ → Option Error × Connection → Type 0
WholeOrClosed c frame r =
    (r ≡ (none, record c { sent = c.sent ++ frame }))
    ⊎ ((e : Error) × (part rest : List ℕ) × (r.0 ≡ some e)
        × (frame ≡ part ++ rest)
        × (r.1.sent ≡ c.sent ++ part)
        × ((part ≡ []) ⊎ (r.1.closed ≡ true)))

close-sent : (c : Connection) → ((close c).sent ≡ c.sent) × ((close c).closed ≡ true)
unfolding close
close-sent c = ground arith

after_frame-WholeOrClosed :
    (a : Attempt) (c : Connection) (frame : List ℕ) (r : Written × List ℕ)
    → Sends frame [] r
    → WholeOrClosed c frame (after_frame a c r)
after_frame-WholeOrClosed a c frame r (inl h) = rw h (inl refl)
after_frame-WholeOrClosed a c frame r (inr (e, part, rest, split, h)) =
    let (kept, shut) = close-sent (record c { sent = c.sent ++ part }) in
    rw h (inr (_, part, rest, refl, split, kept, inr shut))

refused :
    (c d : Connection) (frame : List ℕ) (e : Error)
    → d.sent ≡ c.sent
    → WholeOrClosed c frame (some e, d)
refused c d frame e h = inr (e, [], frame, refl, refl, h ∙ sym (append-nil c.sent), inl refl)

-- writeFrame gets as far as the write.
pub reaches :
    (a : Attempt) (c : Connection) (payload : List ℕ)
    → a.ctx_before ≡ none
    → c.closed ≡ false
    → a.set_deadline ≡ none
    → write_frame_on a c payload ≡ after_frame a c (write_frame a.writer payload)
unfolding write_frame_on
reaches a c payload he hc hd = ground arith

-- SetWriteDeadline fails.
pub no_deadline :
    (a : Attempt) (c : Connection) (payload : List ℕ) (e : WriteError)
    → a.ctx_before ≡ none
    → c.closed ≡ false
    → a.set_deadline ≡ some e
    → write_frame_on a c payload ≡ (some (write e), close c)
unfolding write_frame_on close
no_deadline a c payload e he hc hd = ground arith

-- writeFrame, on any connection and whatever the network does: without an error the whole frame
-- went out, and with one a part from its front, after which the connection is closed unless nothing
-- went out.
pub write_frame_on-WholeOrClosed :
    (a : Attempt) (c : Connection) (payload : List ℕ)
    → WholeOrClosed c (frame_layout payload) (write_frame_on a c payload)
unfolding write_frame_on
write_frame_on-WholeOrClosed a c payload = elim (Option-cases a.ctx_before) [
  | inr (e, he) ↦ rw (he, write_frame_on) (refused c c (frame_layout payload) _ refl)
  | inl he ↦ elim (Bool-cases c.closed) [
    | inl hc ↦
        rw (he, hc, write_frame_on)
          (inr (_, [], frame_layout payload, refl, refl, sym (append-nil c.sent), inl refl))
    | inr hc ↦ elim (Option-cases a.set_deadline) [
      | inr (e, hd) ↦
          subst (WholeOrClosed c (frame_layout payload)) (sym (no_deadline a c payload e he hc hd))
            (refused c (close c) (frame_layout payload) (write e) (close-sent c).0)
      | inl hd ↦
          subst (WholeOrClosed c (frame_layout payload)) (sym (reaches a c payload he hc hd)) (
            after_frame-WholeOrClosed a c (frame_layout payload) (write_frame a.writer payload)
              (write_frame-Sends a.writer payload))
    ]
  ]
]
