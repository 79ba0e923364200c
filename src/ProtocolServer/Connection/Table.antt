-- ===== src/ProtocolServer/Connection/Table.antt =====
-- What writeFrame does to the table of pending commands.
use sco.Common.{
  ℕ, ◌≡◌, ◌⊎◌, inl, inr, refl, sym, subst, true, List, [], ◌++◌, Bool-cases, Option-cases,
}
use sco.Protocol.Frame.{Written, finished, failed, stuck, write_frame}
use sco.ProtocolServer.Connection.Outcome.{reaches, no_deadline}
use sco.ProtocolServer.Connection.{Connection, Attempt, close, after_frame, write_frame_on}

-- The table and the flag stay, or the connection is closed with an empty table.
abbrev pub KeptOrClosed : Connection → Connection → Type 0
KeptOrClosed c d =
    (d.request_id_counter ≡ c.request_id_counter)
    × (((d.pending_cmds ≡ c.pending_cmds) × (d.closed ≡ c.closed))
        ⊎ ((d.pending_cmds ≡ []) × (d.closed ≡ true)))

close-KeptOrClosed : (c : Connection) → KeptOrClosed c (close c)
unfolding close
close-KeptOrClosed c = elim (Bool-cases c.closed) [
  | inl e ↦ rw (e, close) (refl, inl (refl, refl))
  | inr e ↦ rw (e, close) (refl, inr (refl, refl))
]

same : (c : Connection) → KeptOrClosed c c
same c = (refl, inl (refl, refl))

after_frame-KeptOrClosed :
    (a : Attempt) (c : Connection) (r : Written × List ℕ) → KeptOrClosed c (after_frame a c r).1
after_frame-KeptOrClosed a c (finished, out) = same c
after_frame-KeptOrClosed a c (failed e, out) =
    close-KeptOrClosed (record c { sent = c.sent ++ out })
after_frame-KeptOrClosed a c (stuck, out) = same c

pub write_frame_on-KeptOrClosed :
    (a : Attempt) (c : Connection) (payload : List ℕ)
    → KeptOrClosed c (write_frame_on a c payload).1
unfolding write_frame_on
write_frame_on-KeptOrClosed a c payload = elim (Option-cases a.ctx_before) [
  | inr (e, he) ↦ rw (he, write_frame_on) (same c)
  | inl he ↦ elim (Bool-cases c.closed) [
    | inl hc ↦ rw (he, hc, write_frame_on) (refl, inl (refl, refl))
    | inr hc ↦ elim (Option-cases a.set_deadline) [
      | inr (e, hd) ↦
          subst (λ r. KeptOrClosed c r.1) (sym (no_deadline a c payload e he hc hd))
            (close-KeptOrClosed c)
      | inl hd ↦
          subst (λ r. KeptOrClosed c r.1) (sym (reaches a c payload he hc hd))
            (after_frame-KeptOrClosed a c (write_frame a.writer payload))
    ]
  ]
]
