-- ===== src/Protocol/Layout.antt =====
-- The wire format, written out apart from the code: the tables in the comments of protocol.go.
use sco.Common.{ℕ, ◌^◌, ◌≤◌, ◌<◌, ◌≡◌, List, ◌∷◌, ◌++◌, length}
use sco.Common.Words.{u32, be16, be32}
use sco.Protocol.{Message, Command, Response, magic_number, version1, message_type_response}

-- Magic number, version, flags and type, a byte each; the payload's length, 4 bytes; the payload.
abbrev pub message_layout : Message → List ℕ
message_layout m =
    magic_number
    ∷ m.protocol_version
    ∷ m.flags
    ∷ m.type
    ∷ (be32 (u32 (length m.payload)) ++ m.payload)

-- Request id, 4 bytes; command id or status code, 2 bytes; the payload's length, 4 bytes; the
-- payload.
abbrev pub record_layout : ℕ → ℕ → List ℕ → List ℕ
record_layout req_id code payload =
    be32 req_id ++ (be16 code ++ (be32 (u32 (length payload)) ++ payload))

abbrev pub command_layout : Command → List ℕ
command_layout c = record_layout c.req_id c.id c.payload

abbrev pub response_layout : Response → List ℕ
response_layout r = record_layout r.req_id r.code r.payload

-- A message that a version 1 peer may send.
pub record IsSendable (m : Message) : Type 0 where
  pub version : m.protocol_version ≡ version1
  pub known_type : m.type ≤ message_type_response
  pub not_empty : 1 ≤ length m.payload
  pub fits : length m.payload < 2 ^ 32

-- Fields within the Go types of the structs, and a payload that a length field can count.
pub record CommandFits (c : Command) : Type 0 where
  pub req_id : c.req_id < 2 ^ 32
  pub id : c.id < 2 ^ 16
  pub payload : length c.payload < 2 ^ 32

pub record ResponseFits (r : Response) : Type 0 where
  pub req_id : r.req_id < 2 ^ 32
  pub code : r.code < 2 ^ 16
  pub payload : length r.payload < 2 ^ 32
