-- ===== src/Protocol.antt =====
-- protocol/pkg/protocol: the messages of the wire protocol, their constants and their errors
-- (model.go, command_ids.go, status_codes.go, errors.go).
pub mod Buffer
pub mod Layout
pub mod Encode
pub mod Decode
pub mod Frame
pub mod Pool
use sco.Common.{ℕ, ◌*◌, List, []}
use sco.Common.Text.{Text, codes}

abbrev pub magic_number : ℕ
magic_number = 0x67

-- 512 MB
abbrev pub max_frame_size : ℕ
max_frame_size = 512 * 1024 * 1024

abbrev pub version1 : ℕ
version1 = 0x01

abbrev pub message_type_command : ℕ
message_type_command = 0x01

abbrev pub message_type_response : ℕ
message_type_response = 0x02

abbrev pub status_code_ok : ℕ
status_code_ok = 200

abbrev pub status_invalid_message : ℕ
status_invalid_message = 400

abbrev pub status_invalid_access_token : ℕ
status_invalid_access_token = 401

abbrev pub status_not_authenticated : ℕ
status_not_authenticated = 402

abbrev pub status_internal_error : ℕ
status_internal_error = 500

abbrev pub status_command_not_found : ℕ
status_command_not_found = 501

abbrev pub server_command_ping : ℕ
server_command_ping = 1

abbrev pub server_command_token_auth : ℕ
server_command_token_auth = 2

abbrev pub server_command_check_auth : ℕ
server_command_check_auth = 3

abbrev pub server_command_get_tasks : ℕ
server_command_get_tasks = 4

pub record Message : Type 0 where
  pub protocol_version : ℕ  -- byte
  pub flags : ℕ  -- byte
  pub type : ℕ  -- byte
  pub payload : List ℕ

pub record Command : Type 0 where
  pub req_id : ℕ  -- uint32
  pub id : ℕ  -- uint16
  pub payload : List ℕ

pub record Response : Type 0 where
  pub req_id : ℕ  -- uint32
  pub code : ℕ  -- uint16
  pub payload : List ℕ

-- &Message{}, &Command{} and &Response{}
abbrev pub zero_message : Message
zero_message = record { protocol_version = 0; flags = 0; type = 0; payload = [] }

abbrev pub zero_command : Command
zero_command = record { req_id = 0; id = 0; payload = [] }

abbrev pub zero_response : Response
zero_response = record { req_id = 0; code = 0; payload = [] }

pub data Error : Type 0 where
  frame_length_invalid : Error
  magic_number_invalid : Error
  payload_too_short : Error
  empty_payload : Error
  invalid_protocol_version : Error
  unknown_message_type : Error

-- err.Error()
abbrev pub error_text : Error → Text
error_text frame_length_invalid = codes "invalid frame length"
error_text magic_number_invalid = codes "invalid magic number"
error_text payload_too_short = codes "payload too short"
error_text empty_payload = codes "empty payload"
error_text invalid_protocol_version = codes "invalid protocol version"
error_text unknown_message_type = codes "unknown message type"
