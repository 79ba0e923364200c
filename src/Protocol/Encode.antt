-- ===== src/Protocol/Encode.antt =====
-- The encoders of protocol/pkg/protocol/protocol.go, into a buffer that the caller supplies.
pub mod Writes
use sco.Common.{ℕ, ◌+◌, List, length}
use sco.Common.Run.{Run, done, ◌>>=◌, ◌>>◌}
use sco.Common.Words.{u32}
use sco.Protocol.{Message, Command, Response, magic_number}
use sco.Protocol.Buffer.{Buffer, empty, ensure, set_byte, put_u16, put_u32, copy_at}

-- EncodeMessageInto below the capacity check
unfoldable pub fill_message : Message → Buffer → Run Buffer
fill_message msg b0 = do
  b1 ← set_byte b0 0 magic_number
  b2 ← set_byte b1 1 msg.protocol_version
  b3 ← set_byte b2 2 msg.flags
  b4 ← set_byte b3 3 msg.type
  b5 ← put_u32 b4 4 (u32 (length msg.payload))
  copy_at b5 8 msg.payload

unfoldable pub encode_message_into : Message → Buffer → Run Buffer
encode_message_into msg target = do
  let total_length = 1 + 1 + 1 + 1 + 4 + length msg.payload
  b ← ensure target total_length
  fill_message msg b

unfoldable pub encode_message : Message → Run Buffer
encode_message msg = encode_message_into msg empty

-- EncodeCommandInto and EncodeResponseInto below the capacity check
unfoldable pub fill_record : ℕ → ℕ → List ℕ → Buffer → Run Buffer
fill_record req_id code payload b0 = do
  b1 ← put_u32 b0 0 req_id
  b2 ← put_u16 b1 4 code
  b3 ← put_u32 b2 6 (u32 (length payload))
  copy_at b3 10 payload

unfoldable pub encode_command_into : Command → Buffer → Run Buffer
encode_command_into cmd target = do
  let total_length = 4 + 2 + 4 + length cmd.payload
  b ← ensure target total_length
  fill_record cmd.req_id cmd.id cmd.payload b

unfoldable pub encode_command : Command → Run Buffer
encode_command cmd = encode_command_into cmd empty

pub encode_response_into : Response → Buffer → Run Buffer
encode_response_into resp target = do
  let total_length = 4 + 2 + 4 + length resp.payload
  b ← ensure target total_length
  fill_record resp.req_id resp.code resp.payload b

pub encode_response : Response → Run Buffer
encode_response resp = encode_response_into resp empty
