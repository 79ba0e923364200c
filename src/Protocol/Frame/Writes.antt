-- ===== src/Protocol/Frame/Writes.antt =====
-- What the frame writer sends, however the connection splits its writes.
use sco.Common.{
  ℕ, zero, suc, ◌≤◌, ◌≡◌, ◌≢◌, refl, ap, sym, List, [], ◌∷◌, ◌++◌, length, take, drop, arith, ◌==◌,
  ◌∙◌, none, ==_false→ne, ne→==_false, length-drop, take-append-drop, append_assoc, append-nil,
  Bool-cases, Option-cases, inl, inr, ◌⊎◌,
}
use sco.Protocol.Frame.{
  Writer, WriteError, short_write, Written, finished, failed, write_loop, write_frame, frame_layout,
}

-- The loop ended: it sent all of the frame, or it failed and sent a part from the front.
abbrev pub Sends : List ℕ → List ℕ → Written × List ℕ → Type 0
Sends frame sent r =
    (r ≡ (finished, sent ++ frame))
    ⊎ ((e : WriteError) × (part rest : List ℕ) × (frame ≡ part ++ rest)
        × (r ≡ (failed e, sent ++ part)))

-- What went out before a later part of the loop joins what went out then.
Sends-after :
    (n : ℕ) (frame sent : List ℕ) (r : Written × List ℕ)
    → Sends (drop n frame) (sent ++ take n frame) r
    → Sends frame sent r
Sends-after n frame sent r (inl e) = inl (
    e
    ∙ ap (λ t. (finished, t))
        (append_assoc sent (take n frame) (drop n frame)
          ∙ ap (λ t. sent ++ t) (take-append-drop n frame)))
Sends-after n frame sent r (inr (e, part, rest, split, h)) = inr (
  e,
  take n frame ++ part,
  rest,
  sym (take-append-drop n frame)
      ∙ ap (λ t. take n frame ++ t) split
      ∙ sym (append_assoc (take n frame) part rest),
  h ∙ ap (λ t. (failed e, t)) (append_assoc sent (take n frame) part),
)

stopped :
    (n : ℕ) (frame sent : List ℕ) (e : WriteError)
    → Sends frame sent (failed e, sent ++ take n frame)
stopped n frame sent e = inr (e, take n frame, drop n frame, sym (take-append-drop n frame), refl)

write_loop-Sends :
    (w : Writer) (fuel k : ℕ) (frame sent : List ℕ)
    → length frame ≤ fuel
    → Sends frame sent (write_loop w fuel k frame sent)
unfolding write_loop
write_loop-Sends w fuel k [] sent h = inl (ap (λ t. (finished, t)) (sym (append-nil sent)))
write_loop-Sends w zero k (x ∷ frame) sent h = absurd (omega arith)
write_loop-Sends w (suc fuel) k (x ∷ frame) sent h =
    let all = x ∷ frame in
    let n = (w.write k all).0 in
    elim (Option-cases (w.write k all).1) [
      | inr (e, he) ↦ rw he (stopped n all sent e)
      | inl he ↦ elim (Bool-cases (n == 0)) [
        | inl hn ↦ rw (he, hn) (stopped n all sent short_write)
        | inr hn ↦
            rw (he, hn)
              (Sends-after n all sent _ (
                write_loop-Sends w fuel (suc k) (drop n all) (sent ++ take n all)
                  (omega (arith, length-drop n all, ==_false→ne n 0 hn))))
      ]
    ]

-- WriteFrame always ends, whatever part of the frame each write takes: with success exactly after
-- the whole frame went out, and otherwise with an error after a part from its front.
pub write_frame-Sends :
    (w : Writer) (payload : List ℕ) → Sends (frame_layout payload) [] (write_frame w payload)
unfolding write_frame
write_frame-Sends w payload =
    write_loop-Sends w (length (frame_layout payload)) 0 (frame_layout payload) [] (omega arith)

-- A connection that is up: each write of something takes a part of it at least, without an error.
pub record IsUp (w : Writer) : Type 0 where
  pub takes : (k : ℕ) (bytes : List ℕ) → bytes ≢ [] → 1 ≤ (w.write k bytes).0
  pub no_error : (k : ℕ) (bytes : List ℕ) → bytes ≢ [] → (w.write k bytes).1 ≡ none

write_loop-IsUp :
    (w : Writer) (fuel k : ℕ) (frame sent : List ℕ)
    → IsUp w
    → length frame ≤ fuel
    → write_loop w fuel k frame sent ≡ (finished, sent ++ frame)
unfolding write_loop
write_loop-IsUp w fuel k [] sent up h = ap (λ t. (finished, t)) (sym (append-nil sent))
write_loop-IsUp w zero k (x ∷ frame) sent up h = absurd (omega arith)
write_loop-IsUp w (suc fuel) k (x ∷ frame) sent up h =
    let all = x ∷ frame in
    let n = (w.write k all).0 in
    let full : all ≢ [] = λ e. cc in
    let some_taken = up.takes k all full in
    rw (up.no_error k all full, ne→==_false n 0 (omega arith))
      (write_loop-IsUp w fuel (suc k) (drop n all) (sent ++ take n all) up
          (omega (arith, length-drop n all))
        ∙ ap (λ t. (finished, t))
            (append_assoc sent (take n all) (drop n all)
              ∙ ap (λ t. sent ++ t) (take-append-drop n all)))

-- On a connection that is up, WriteFrame sends the whole frame, however the writes split it.
pub write_frame-IsUp :
    (w : Writer) (payload : List ℕ)
    → IsUp w
    → write_frame w payload ≡ (finished, frame_layout payload)
unfolding write_frame
write_frame-IsUp w payload up =
    write_loop-IsUp w (length (frame_layout payload)) 0 (frame_layout payload) [] up (omega arith)
