-- ===== src/Protocol/Frame/Reads.antt =====
-- What the frame reader returns.
use sco.Common.{
  ℕ, ◌/◌, ◌%◌, ◌^◌, ◌∙◌, ◌≤◌, ◌<◌, ◌≡◌, ◌≢◌, refl, ap, List, [], ◌∷◌, ◌++◌, length, take, drop, All,
  arith, take-append, drop-append, length-append, length-take, take-overwrite, overwrite, ◌⊎◌,
}
use sco.Common.Run.{done, panic, returns}
use sco.Common.Result.{Result, ok, err}
use sco.Common.Words.{u32, IsByte, join32, length_prefixed}
use sco.Protocol.{max_frame_size, frame_length_invalid}
use sco.Protocol.Buffer.{Buffer, bytes, ensure_lem}
use sco.Protocol.Frame.{
  Stream, ReadError, FrameError, read, invalid, read_full, read_frame_into, frame_layout,
}

-- Where the stream holds the four bytes of `n` and then `n` bytes, they are read.
read_sized :
    (target : Buffer) (a b c d : ℕ) (after : List ℕ) (ending : ReadError)
    → 1 ≤ join32 a b c d
    → join32 a b c d ≤ max_frame_size
    → join32 a b c d ≤ length after
    → (r : Buffer) × (bytes r ≡ take (join32 a b c d) after)
      × (read_frame_into target (record { input = a ∷ b ∷ c ∷ d ∷ after; ending = ending })
          ≡ done (ok r, record { input = drop (join32 a b c d) after; ending = ending }))
unfolding read_frame_into read_full
read_sized target a b c d after ending pos small fits =
    let n = join32 a b c d in
    let (r, e, el, room) = ensure_lem target n in
    (
      record r { array = overwrite 0 (take n after) r.array },
      rw el (take-overwrite n (take n after) r.array (omega (arith, length-take n after)) room),
      ground (arith, e),
    )

-- A frame of 1 byte to 512 MB at the head of the stream is read, into any buffer, and what follows
-- it stays.
pub read_frame_into-layout :
    (target : Buffer) (payload rest : List ℕ) (ending : ReadError)
    → 1 ≤ length payload
    → length payload ≤ max_frame_size
    → (b : Buffer) × (bytes b ≡ payload)
      × (read_frame_into target (record { input = frame_layout payload ++ rest; ending = ending })
          ≡ done (ok b, record { input = rest; ending = ending }))
read_frame_into-layout target payload rest ending pos small =
    let n = u32 (length payload) in
    let k = join32 (n / 16777216 % 256) (n / 65536 % 256) (n / 256 % 256) (n % 256) in
    let size : k ≡ length payload = omega arith in
    let (b, seen, e) =
      read_sized target (n / 16777216 % 256) (n / 65536 % 256) (n / 256 % 256) (n % 256)
        (payload ++ rest) ending (omega arith) (omega arith)
        (omega (arith, length-append payload rest)) in
    (
      b,
      seen ∙ take-append payload rest k size,
      e
          ∙ ap (λ t. done (ok b, record { input = t; ending = ending }))
              (drop-append payload rest k size),
    )

-- The head of a frame that is empty or longer than 512 MB, and shorter than 4 GB, is refused, and
-- nothing of the payload is read.
pub read_frame_into-refuses :
    (target : Buffer) (payload rest : List ℕ) (ending : ReadError)
    → (length payload ≡ 0) ⊎ (max_frame_size < length payload)
    → length payload < 2 ^ 32
    → read_frame_into target (record { input = frame_layout payload ++ rest; ending = ending })
      ≡ done
          (err (invalid frame_length_invalid), record { input = payload ++ rest; ending = ending })
unfolding read_frame_into read_full
read_frame_into-refuses target payload rest ending bad fits = ground (arith, size)
  where
    n : ℕ
    n = u32 (length payload)

    size : join32 (n / 16777216 % 256) (n / 65536 % 256) (n / 256 % 256) (n % 256) ≡ length payload
    size = omega arith

-- What a successful read says of the stream it read from.
read_inversion :
    (target : Buffer) (a b c d : ℕ) (after : List ℕ) (ending : ReadError) (r : Buffer) (t : Stream)
    → read_frame_into target (record { input = a ∷ b ∷ c ∷ d ∷ after; ending = ending })
      ≡ done (ok r, t)
    → (1 ≤ join32 a b c d) × (join32 a b c d ≤ max_frame_size) × (join32 a b c d ≤ length after)
unfolding read_frame_into read_full
read_inversion target a b c d after ending r t h =
    let (r', e, el, room) = ensure_lem target (join32 a b c d) in ground (arith, e)

-- A frame that was read from a stream of bytes holds 1 byte to 512 MB, and it and its length are
-- what the stream gave up.
pub read_frame_into_sound :
    (target : Buffer) (s t : Stream) (r : Buffer)
    → All IsByte s.input
    → read_frame_into target s ≡ done (ok r, t)
    → (1 ≤ length (bytes r))
      × (length (bytes r) ≤ max_frame_size)
      × (s.input ≡ frame_layout (bytes r) ++ t.input)
      × (t.ending ≡ s.ending)
read_frame_into_sound target s t r hb h = go s.input hb h
  where
    go :
        (xs : List ℕ)
        → All IsByte xs
        → read_frame_into target (record { input = xs; ending = s.ending }) ≡ done (ok r, t)
        → (1 ≤ length (bytes r))
          × (length (bytes r) ≤ max_frame_size)
          × (xs ≡ frame_layout (bytes r) ++ t.input)
          × (t.ending ≡ s.ending)
    go (a ∷ b ∷ c ∷ d ∷ after) hb h =
        let n = join32 a b c d in
        let (pos, small, fits) = read_inversion target a b c d after s.ending r t h in
        let (r', seen, e) = read_sized target a b c d after s.ending pos small fits in
        let same : bytes r ≡ take n after = ground (arith, e, h, seen) in
        let left : t ≡ record { input = drop n after; ending = s.ending } = cc (e, h) in
        rw (same, left)
          (
            omega (arith, length-take n after),
            omega (arith, length-take n after),
            length_prefixed a b c d n after (omega arith) refl fits,
            refl,
          )
    go _ hb h = unfold read_frame_into read_full in ground arith

-- The frame reader returns on every stream.
pub read_frame_into-returns :
    (target : Buffer) (s : Stream)
    → (r : Result FrameError Buffer × Stream) × (read_frame_into target s ≡ done r)
unfolding read_frame_into read_full
read_frame_into-returns target s = returns (read_frame_into target s) (go s.input)
  where
    go : (xs : List ℕ) → read_frame_into target (record s { input = xs }) ≢ panic
    go (a ∷ b ∷ c ∷ d ∷ rest) =
        let (r, e, el, room) = ensure_lem target (join32 a b c d) in ground (arith, e)
    go _ = ground arith

-- At the end of the stream the reader reports how it ended.
pub read_frame_into-ended :
    (target : Buffer) (ending : ReadError)
    → read_frame_into target (record { input = []; ending = ending })
      ≡ done (err (read ending), record { input = []; ending = ending })
unfolding read_frame_into read_full
read_frame_into-ended target ending = refl
