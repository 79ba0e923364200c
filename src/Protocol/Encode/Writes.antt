-- ===== src/Protocol/Encode/Writes.antt =====
-- What the encoders leave in their buffer, whatever it held before.
use sco.Common.{
  ℕ, suc, ◌+◌, ◌-◌, ◌≤◌, ◌≡◌, refl, ap, List, ◌∷◌, ◌++◌, length, take, overwrite, arith, take_all,
  take-overwrite, length-overwrite,
}
use sco.Common.Run.{Run, done, ◌>>=◌}
use sco.Common.Words.{u32, be16, be32}
use sco.Protocol.{Message, Command, Response, magic_number}
use sco.Protocol.Layout.{message_layout, record_layout, command_layout, response_layout}
use sco.Protocol.Buffer.{Buffer, empty, bytes, ensure, ensure_lem}
use sco.Protocol.Encode.{
  fill_message, encode_message_into, encode_message, fill_record, encode_command_into,
  encode_command, encode_response_into, encode_response,
}

-- The encoder returns, and a reader of its buffer sees `xs`.
abbrev pub Writes : Run Buffer → List ℕ → Type 0
Writes r xs = (b : Buffer) × (r ≡ done b) × (bytes b ≡ xs) × (b.len ≤ length b.array)

abbrev plus8 : ℕ → ℕ
plus8 n = suc (suc (suc (suc (suc (suc (suc (suc n)))))))

payload_copied :
    (payload rest : List ℕ) (room : ℕ)
    → room ≡ length payload
    → length payload ≤ length rest
    → take (length payload) (overwrite 0 (take room payload) rest) ≡ payload
payload_copied payload rest room e h =
    rw (take_all room payload (omega arith)) (take-overwrite (length payload) payload rest refl h)

fill_message-Writes :
    (m : Message) (array : List ℕ)
    → plus8 (length m.payload) ≤ length array
    → Writes
        (fill_message m (record { array = array; len = plus8 (length m.payload) }))
        (message_layout m)
unfolding fill_message
fill_message-Writes m (a ∷ b ∷ c ∷ d ∷ e ∷ f ∷ g ∷ h ∷ rest) hc =
    let n = length m.payload in
    let after : List ℕ = overwrite 0 (take (plus8 n - 8) m.payload) rest in
    let head : List ℕ → List ℕ =
      λ t. magic_number ∷ m.protocol_version ∷ m.flags ∷ m.type ∷ (be32 (u32 n) ++ t) in
    (
      record { array = head after; len = plus8 n },
      refl,
      ap head (payload_copied m.payload rest (plus8 n - 8) (omega arith) (omega arith)),
      omega (arith, length-overwrite {A = ℕ} 0 (take (plus8 n - 8) m.payload) rest),
    )
fill_message-Writes m _ hc = absurd (omega arith)

abbrev plus10 : ℕ → ℕ
plus10 n = suc (suc (plus8 n))

fill_record-Writes :
    (req_id code : ℕ) (payload array : List ℕ)
    → plus10 (length payload) ≤ length array
    → Writes
        (fill_record req_id code payload (record { array = array; len = plus10 (length payload) }))
        (record_layout req_id code payload)
unfolding fill_record
fill_record-Writes r c payload (a0 ∷ a1 ∷ a2 ∷ a3 ∷ a4 ∷ a5 ∷ a6 ∷ a7 ∷ a8 ∷ a9 ∷ rest) hc =
    let n = length payload in
    let after : List ℕ = overwrite 0 (take (plus10 n - 10) payload) rest in
    let head : List ℕ → List ℕ = λ t. be32 r ++ (be16 c ++ (be32 (u32 n) ++ t)) in
    (
      record { array = head after; len = plus10 n },
      refl,
      ap head (payload_copied payload rest (plus10 n - 10) (omega arith) (omega arith)),
      omega (arith, length-overwrite {A = ℕ} 0 (take (plus10 n - 10) payload) rest),
    )
fill_record-Writes r c payload _ hc = absurd (omega arith)

-- An encoder that fills a buffer of the right length after `ensure`.
after_ensure :
    (fill : Buffer → Run Buffer) (target : Buffer) (n : ℕ) (xs : List ℕ)
    → ((array : List ℕ) → n ≤ length array → Writes (fill (record { array = array; len = n })) xs)
    → Writes (ensure target n >>= fill) xs
after_ensure fill target n xs filled =
    let (c, e, el, h) = ensure_lem target n in
    let (b, eb, ebytes, hb) = filled c.array h in (b, cc (e, el, eb), ebytes, hb)

-- EncodeMessageInto returns, and what it leaves in the buffer reads as the message's layout,
-- whatever the length, the capacity and the bytes of the buffer that it was given.
pub encode_message_into-Writes :
    (m : Message) (target : Buffer) → Writes (encode_message_into m target) (message_layout m)
unfolding encode_message_into
encode_message_into-Writes m target =
    after_ensure (fill_message m) target _ _
      (λ array h. rw size (fill_message-Writes m array (omega arith)))
  where
    size : 1 + 1 + 1 + 1 + 4 + length m.payload ≡ plus8 (length m.payload)
    size = omega arith

fill_record_sized :
    (req_id code : ℕ) (payload : List ℕ) (target : Buffer)
    → Writes
        (ensure target (4 + 2 + 4 + length payload) >>= fill_record req_id code payload)
        (record_layout req_id code payload)
fill_record_sized r c payload target =
    after_ensure (fill_record r c payload) target _ _
      (λ array h. rw size (fill_record-Writes r c payload array (omega arith)))
  where
    size : 4 + 2 + 4 + length payload ≡ plus10 (length payload)
    size = omega arith

-- EncodeCommandInto returns, and what it leaves in the buffer reads as the command's layout,
-- whatever the buffer was.
pub encode_command_into-Writes :
    (c : Command) (target : Buffer) → Writes (encode_command_into c target) (command_layout c)
unfolding encode_command_into
encode_command_into-Writes c target = fill_record_sized c.req_id c.id c.payload target

-- EncodeResponseInto returns, and what it leaves in the buffer reads as the response's layout,
-- whatever the buffer was.
pub encode_response_into-Writes :
    (r : Response) (target : Buffer) → Writes (encode_response_into r target) (response_layout r)
unfolding encode_response_into
encode_response_into-Writes r target = fill_record_sized r.req_id r.code r.payload target

pub encode_message-Writes : (m : Message) → Writes (encode_message m) (message_layout m)
unfolding encode_message
encode_message-Writes m = encode_message_into-Writes m empty

pub encode_command-Writes : (c : Command) → Writes (encode_command c) (command_layout c)
unfolding encode_command
encode_command-Writes c = encode_command_into-Writes c empty

pub encode_response-Writes : (r : Response) → Writes (encode_response r) (response_layout r)
unfolding encode_response
encode_response-Writes r = encode_response_into-Writes r empty
