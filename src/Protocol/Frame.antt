-- ===== src/Protocol/Frame.antt =====
-- ReadFrameInto, ReadFrame and WriteFrame of protocol/pkg/protocol/protocol.go over a stream.
pub mod Reads
pub mod Writes
use sco.Common.{
  ℕ, true, false, zero, suc, ◌≤◌, List, [], ◌∷◌, ◌++◌, Option, none, some, length, take, drop,
  overwrite, ltb, leb, ◌==◌, ◌||◌, if◌then◌else◌,
}
use sco.Common.Run.{Run, done, ◌>>=◌}
use sco.Common.Result.{Result, ok, err}
use sco.Common.Words.{u32, be32, uint32_at}
use sco.Protocol.{Error, max_frame_size, frame_length_invalid}
use sco.Protocol.Buffer.{Buffer, empty, ensure}

-- How a read can end: io.EOF, io.ErrUnexpectedEOF, net.ErrClosed or another error.
pub data ReadError : Type 0 where
  eof unexpected_eof closed failure : ReadError

-- The reading side of a connection: the bytes that still come, and how it ends behind them.
pub record Stream : Type 0 where
  pub input : List ℕ
  pub ending : ReadError

pub data FrameError : Type 0 where
  invalid : Error → FrameError
  read : ReadError → FrameError

-- io.ReadFull: the end of the stream inside the wanted bytes is an unexpected one.
abbrev cut : ReadError → ReadError
cut eof = unexpected_eof
cut e = e

pub read_full : ℕ → Stream → Result ReadError (List ℕ) × Stream
read_full n s =
    if leb n (length s.input)
    then (ok (take n s.input), record s { input = drop n s.input })
    else if length s.input == 0
    then (err s.ending, s)
    else (err (cut s.ending), record s { input = [] })

-- The last read of ReadFrameInto, into the buffer `b`.
abbrev fill : Buffer → Result ReadError (List ℕ) × Stream → Result FrameError Buffer × Stream
fill b (ok bytes, s) = (ok (record b { array = overwrite 0 bytes b.array }), s)
fill b (err e, s) = (err (read e), s)

-- ReadFrameInto below the read of the length. frameLength is a Uint32 in a 64-bit int, so that
-- frameLength <= 0 says that it is 0.
abbrev read_payload :
    Buffer → Result ReadError (List ℕ) × Stream → Run (Result FrameError Buffer × Stream)
read_payload target (err e, s) = done (err (read e), s)
read_payload target (ok len_buf, s) = do
  frame_length ← uint32_at len_buf 0
  if frame_length == 0 || ltb max_frame_size frame_length
      then done (err (invalid frame_length_invalid), s)
      else do b ← ensure target frame_length; done (fill b (read_full frame_length s))

unfoldable pub read_frame_into : Buffer → Stream → Run (Result FrameError Buffer × Stream)
unfolding read_full
read_frame_into target s = read_payload target (read_full 4 s)

pub read_frame : Stream → Run (Result FrameError Buffer × Stream)
unfolding read_frame_into
read_frame s = read_frame_into empty s

pub data WriteError : Type 0 where
  short_write deadline_exceeded closed failure : WriteError

-- net.Conn's Write, which the program does not implement: on its k-th call it is handed bytes, and
-- returns how many of them it wrote, with an error or none. io.Writer promises at most all.
pub record Writer : Type 0 where
  pub write : ℕ → List ℕ → ℕ × Option WriteError
  pub write-le : (k : ℕ) (bytes : List ℕ) → (write k bytes).0 ≤ length bytes

pub data Written : Type 0 where
  finished : Written
  failed : WriteError → Written
  stuck : Written

-- A round of the loop of WriteFrame, after a write of `n` bytes with the error `e`, or none; `rest`
-- is what the later rounds come to.
abbrev after_write : ℕ → Option WriteError → List ℕ → Written × List ℕ → Written × List ℕ
after_write n (some e) sent rest = (failed e, sent)
after_write n none sent rest = if n == 0 then (failed short_write, sent) else rest

-- The loop, with the bytes that have gone out. `stuck`: the fuel ran out.
write_loop : Writer → ℕ → ℕ → List ℕ → List ℕ → Written × List ℕ
write_loop w fuel k [] sent = (finished, sent)
write_loop w zero k (x ∷ frame) sent = (stuck, sent)
write_loop w (suc fuel) k (x ∷ frame) sent =
    let n = (w.write k (x ∷ frame)).0 in
    let sent' = sent ++ take n (x ∷ frame) in
    after_write n (w.write k (x ∷ frame)).1 sent'
      (write_loop w fuel (suc k) (drop n (x ∷ frame)) sent')

-- Length and payload, as they go out.
abbrev pub frame_layout : List ℕ → List ℕ
frame_layout data_bytes = be32 (u32 (length data_bytes)) ++ data_bytes

-- A round that does not end the loop writes a byte at least, so the frame's length is fuel enough.
pub write_frame : Writer → List ℕ → Written × List ℕ
unfolding write_loop
write_frame w data_bytes =
    let frame = frame_layout data_bytes in write_loop w (length frame) 0 frame []
