-- ===== src/Protocol/Pool.antt =====
-- protocol/pkg/protocol/object_pool.go. A sync.Pool hands out any of the items that were put, or
-- none of them, and then a new one: `choice` is the place of the item in the list.
pub mod Clean
use sco.Common.{ℕ, zero, suc, ◌*◌, List, [], ◌∷◌, ltb, if◌then◌else◌}
use sco.Protocol.{Message, Command, Response, zero_message, zero_command, zero_response}
use sco.Protocol.Buffer.{Buffer, cap, make}

-- pool.Get(), with what pool.New() makes
pub pool_get {ℓ} : {A : Type ℓ} → A → ℕ → List A → A × List A
pool_get new choice [] = (new, [])
pool_get new zero (x ∷ xs) = (x, xs)
pool_get new (suc choice) (x ∷ xs) = let r = pool_get new choice xs in (r.0, x ∷ r.1)

-- make([]byte, 0, 1024)
abbrev pub new_buffer : Buffer
new_buffer = record (make 1024) { len = 0 }

-- GetRequestBufferFromPool and GetResponseBufferFromPool
pub get_buffer : ℕ → List Buffer → Buffer × List Buffer
get_buffer choice pool =
    let (b, rest) = pool_get new_buffer choice pool in (record b { len = 0 }, rest)

-- PutRequestBufferToPool and PutResponseBufferToPool
pub put_buffer : Buffer → List Buffer → List Buffer
put_buffer b pool = if ltb (64 * 1024) (cap b) then pool else (record b { len = 0 }) ∷ pool

pub get_message : ℕ → List Message → Message × List Message
get_message = pool_get zero_message

pub put_message : Message → List Message → List Message
put_message m pool = (record m { protocol_version = 0; flags = 0; type = 0; payload = [] }) ∷ pool

pub get_command : ℕ → List Command → Command × List Command
get_command = pool_get zero_command

pub put_command : Command → List Command → List Command
put_command c pool = (record c { req_id = 0; id = 0; payload = [] }) ∷ pool

pub get_response : ℕ → List Response → Response × List Response
get_response = pool_get zero_response

pub put_response : Response → List Response → List Response
put_response r pool = (record r { req_id = 0; code = 0; payload = [] }) ∷ pool
