-- ===== src/Protocol/Decode.antt =====
-- The decoders of protocol/pkg/protocol/protocol.go. A decoder writes fields of its target before
-- some of its checks, so the target comes back beside the error too. `none` is the nil error.
pub mod Accepts
pub mod Records
use sco.Common.{ℕ, ◌≡◌, ◌+◌, List, Option, none, some, length, ltb, ◌==◌, not, if◌then◌else◌}
use sco.Common.Run.{Run, done, panic, index, slice, ◌>>=◌}
use sco.Common.Result.{Result, ok, err}
use sco.Common.Words.{uint16_at, uint32_at}
use sco.Protocol.{
  Message, Command, Response, Error, magic_number, version1, message_type_response, zero_message,
  zero_command, zero_response, magic_number_invalid, payload_too_short, empty_payload,
  invalid_protocol_version, unknown_message_type,
}

-- DecodeMessageInto from the check of the decoded version on
decode_payload : List ℕ → Message → Run (Option Error × Message)
decode_payload bytes target =
    if not (target.protocol_version == version1)
    then done (some invalid_protocol_version, target)
    else if ltb message_type_response target.type
    then done (some unknown_message_type, target)
    else do
      payload_length ← uint32_at bytes 4
      if payload_length == 0
          then done (some empty_payload, target)
          else if ltb (length bytes) (8 + payload_length)
          then done (some payload_too_short, target)
          else do
            payload ← slice bytes 8 (8 + payload_length)
            done (none, record target { payload = payload })

-- DecodeMessageInto; the first argument is p.Version.
unfoldable pub decode_message_into : ℕ → List ℕ → Message → Run (Option Error × Message)
unfolding decode_payload
decode_message_into version bytes target =
    if length bytes == 0 then done (some payload_too_short, target) else do
      magic ← index bytes 0
      if not (magic == magic_number)
          then done (some magic_number_invalid, target)
          else if ltb (length bytes) 8
          then done (some payload_too_short, target)
          else do
            v ← index bytes 1
            if not (v == version) then done (some invalid_protocol_version, target) else do
              f ← index bytes 2
              t ← index bytes 3
              decode_payload bytes (record target { protocol_version = v; flags = f; type = t })

-- if err != nil { return nil, err }; return target, nil
abbrev or_error : {A : Type 0} → Option Error × A → Result Error A
or_error (none, a) = ok a
or_error (some e, a) = err e

-- A decoder that returned a value without an error left it in its target.
pub or_error-ok :
    {A : Type 0} (m : Run (Option Error × A)) (a : A)
    → (m >>= λ r. done (or_error r)) ≡ done (ok a)
    → m ≡ done (none, a)
or_error-ok (done (none, b)) a h = cc
or_error-ok (done (some e, b)) a h = cc
or_error-ok panic a h = cc

pub decode_message : ℕ → List ℕ → Run (Result Error Message)
decode_message version bytes = do
  r ← decode_message_into version bytes zero_message
  done (or_error r)

pub decode_command_into : Message → Command → Run (Option Error × Command)
decode_command_into msg target =
    let bytes = msg.payload in
    if ltb (length bytes) (4 + 2 + 4) then done (some payload_too_short, target) else do
      req_id ← uint32_at bytes 0
      id ← uint16_at bytes 4
      payload_len ← uint32_at bytes 6
      if ltb (length bytes) (10 + payload_len)
          then done (some payload_too_short, record target { req_id = req_id; id = id })
          else do
            payload ← slice bytes 10 (10 + payload_len)
            done (none, record { req_id = req_id; id = id; payload = payload })

pub decode_command : Message → Run (Result Error Command)
decode_command msg = do r ← decode_command_into msg zero_command; done (or_error r)

pub decode_response_into : Message → Response → Run (Option Error × Response)
decode_response_into msg target =
    let bytes = msg.payload in
    if ltb (length bytes) (4 + 2 + 4) then done (some payload_too_short, target) else do
      req_id ← uint32_at bytes 0
      code ← uint16_at bytes 4
      payload_len ← uint32_at bytes 6
      if ltb (length bytes) (10 + payload_len)
          then done (some payload_too_short, record target { req_id = req_id; code = code })
          else do
            payload ← slice bytes 10 (10 + payload_len)
            done (none, record { req_id = req_id; code = code; payload = payload })

pub decode_response : Message → Run (Result Error Response)
decode_response msg = do r ← decode_response_into msg zero_response; done (or_error r)
