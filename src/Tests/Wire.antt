-- ===== src/Tests/Wire.antt =====
-- Messages, frames and pools of protocol/pkg/protocol, at concrete bytes.
use sco.Common.{
  ℕ, ◌≤◌, min, ◌≡◌, ◌≢◌, ◌↔◌, inl, refl, List, [], ◌∷◌, ◌++◌, none, length, arith, replicate,
}
use sco.Common.Run.{done}
use sco.Common.Result.{ok, err}
use sco.Common.Text.{codes}
use sco.Protocol.{
  Message, Command, Response, Error, payload_too_short, version1, max_frame_size,
  frame_length_invalid, zero_message, zero_command, zero_response,
}
use sco.Protocol.Buffer.{Buffer, bytes, cap, make}
use sco.Protocol.Layout.{message_layout, command_layout, IsSendable, CommandFits}
use sco.Protocol.Decode.{decode_message, decode_command}
use sco.Protocol.Decode.Accepts.{decode_message_iff}
use sco.Protocol.Decode.Records.{decode_command_iff}
use sco.Protocol.Frame.{Stream, eof, invalid, read_frame_into, Writer, write_frame, frame_layout}
use sco.Protocol.Frame.Reads.{read_frame_into-refuses, read_frame_into_sound}
use sco.Protocol.Frame.Writes.{Sends, IsUp, write_frame-Sends}
use sco.Protocol.Pool.{
  get_message, put_message, get_command, put_command, get_response, put_response,
}
use sco.Protocol.Pool.Clean.{put_back, after, pools_are_clean}

abbrev pub hello : Message
hello = record { protocol_version = 1; flags = 0; type = 1; payload = codes "hello" }

abbrev hello_bytes : List ℕ
hello_bytes = message_layout hello ++ 7 ∷ 8 ∷ []

abbrev ask : Command
ask = record { req_id = 70000; id = 4; payload = codes "node" }

abbrev told : Response
told = record { req_id = 70000; code = 200; payload = codes "[]" }

abbrev used_buffer : Buffer
used_buffer = record { array = replicate 40 9; len = 3 }

decode_message_iff_example :
    (decode_message version1 hello_bytes ≡ done (ok hello))
    ↔ (IsSendable hello × ((rest : List ℕ) × (hello_bytes ≡ message_layout hello ++ rest)))
decode_message_iff_example = decode_message_iff hello_bytes hello (ground arith)

decode_command_iff_example :
    (decode_command (record hello { payload = command_layout ask }) ≡ done (ok ask))
    ↔ (CommandFits ask × ((rest : List ℕ) × (command_layout ask ≡ command_layout ask ++ rest)))
decode_command_iff_example =
    decode_command_iff (record hello { payload = command_layout ask }) ask (ground arith)

read_frame_into-refuses_example :
    read_frame_into used_buffer (record { input = frame_layout [] ++ 1 ∷ []; ending = eof })
    ≡ done (err (invalid frame_length_invalid), record { input = 1 ∷ []; ending = eof })
read_frame_into-refuses_example =
    read_frame_into-refuses used_buffer [] (1 ∷ []) eof (inl refl) (omega arith)

abbrev two_frames : Stream
two_frames = record { input = frame_layout (5 ∷ 6 ∷ []) ++ 0 ∷ 0 ∷ []; ending = eof }

abbrev seen : Buffer
seen = record { array = 5 ∷ 6 ∷ []; len = 2 }

read_frame_into_sound_example :
    (1 ≤ length (bytes seen))
    × (length (bytes seen) ≤ max_frame_size)
    × (two_frames.input ≡ frame_layout (bytes seen) ++ 0 ∷ 0 ∷ [])
    × (eof ≡ eof)
unfolding read_frame_into sco.Protocol.Buffer.ensure
read_frame_into_sound_example =
    read_frame_into_sound (make 0) two_frames (record { input = 0 ∷ 0 ∷ []; ending = eof }) seen
      (ground arith) refl

-- A connection that takes a byte at a time.
abbrev pub one_byte : Writer
one_byte = record { write = λ k bs. (min 1 (length bs), none); write-le = λ k bs. omega arith }

not_empty : (bs : List ℕ) → bs ≢ [] → 1 ≤ min 1 (length bs)
not_empty [] h = absurd (h refl)
not_empty (b ∷ bs) h = omega arith

pub one_byte-IsUp : IsUp one_byte
one_byte-IsUp = record { takes = λ k bs h. not_empty bs h; no_error = λ k bs h. refl }

write_frame-Sends_example :
    Sends (frame_layout (codes "hello")) [] (write_frame one_byte (codes "hello"))
write_frame-Sends_example = write_frame-Sends one_byte (codes "hello")

pools_are_clean_example :
    ((get_message 0 (after zero_message put_message (put_back hello ∷ []))).0 ≡ zero_message)
    × ((get_command 0 (after zero_command put_command (put_back ask ∷ []))).0 ≡ zero_command)
    × ((get_response 0 (after zero_response put_response (put_back told ∷ []))).0 ≡ zero_response)
pools_are_clean_example =
    pools_are_clean (put_back hello ∷ []) (put_back ask ∷ []) (put_back told ∷ []) 0 0 0
