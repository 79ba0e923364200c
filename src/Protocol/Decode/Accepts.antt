-- ===== src/Protocol/Decode/Accepts.antt =====
-- Which bytes the message decoder accepts, and what it makes of them.
use sco.Common.{
  ℕ, ◌+◌, ◌-◌, ◌/◌, ◌%◌, ◌^◌, ◌≤◌, ◌<◌, ◌≡◌, ◌↔◌, ◌≢◌, ◌⊎◌, refl, sym, ap, List, [], ◌∷◌, ◌++◌,
  Option, none, append-nil, length, take, drop, All, arith, take-append, length-take, length-append,
  ◌∙◌,
}
use sco.Common.Run.{done, panic, panic}
use sco.Common.Result.{ok}
use sco.Common.Words.{u32, IsByte, join32, length_prefixed}
use sco.Protocol.{Message, Error, version1, magic_number, message_type_response, zero_message}
use sco.Protocol.Layout.{message_layout, IsSendable}
use sco.Protocol.Decode.{decode_message_into, decode_message, or_error-ok}

-- DecodeMessageInto returns on every input: no index or slice of it is out of range.
pub decode_message_into-ne-panic :
    (version : ℕ) (bytes : List ℕ) (target : Message)
    → decode_message_into version bytes target ≢ panic
unfolding decode_message_into
decode_message_into-ne-panic v [] t = ground arith
decode_message_into-ne-panic v (a ∷ b ∷ c ∷ d ∷ e ∷ f ∷ g ∷ h ∷ rest) t = ground arith
decode_message_into-ne-panic v (a ∷ short) t = ground arith

-- What acceptance of eight bytes and a rest says of them, `n` being the length field.
accepted :
    (a b c d e f g h n : ℕ) (rest : List ℕ) (m : Message)
    → n ≡ join32 e f g h
    → decode_message version1 (a ∷ b ∷ c ∷ d ∷ e ∷ f ∷ g ∷ h ∷ rest) ≡ done (ok m)
    → (a ≡ magic_number)
      × (b ≡ version1)
      × (d ≤ message_type_response)
      × (1 ≤ n)
      × (n ≤ length rest)
      × (m ≡ record { protocol_version = b; flags = c; type = d; payload = take (8 + n - 8) rest })
unfolding decode_message decode_message_into
accepted a b c d e f g h n rest m hn eq = ground arith

-- What the decoder accepts is a sendable message in its layout, with any bytes behind it.
decode_message_sound :
    (bytes : List ℕ) (m : Message)
    → All IsByte bytes
    → decode_message version1 bytes ≡ done (ok m)
    → (rest : List ℕ) × IsSendable m × (bytes ≡ message_layout m ++ rest)
decode_message_sound (a ∷ b ∷ c ∷ d ∷ e ∷ f ∷ g ∷ h ∷ rest) m hb eq =
    let n = join32 e f g h in
    let (ha, hv, hd, pos, fits, hm) = accepted a b c d e f g h n rest m refl eq in
    let below : n < 2 ^ 32 = omega arith in
    let room : 8 + n - 8 ≡ n = omega arith in
    let size : length (take (8 + n - 8) rest) ≡ n = omega (arith, length-take (8 + n - 8) rest) in
    rw hm (
      drop n rest,
      record { version = hv; known_type = hd; not_empty = omega arith; fits = omega arith },
      rw (ha, room)
          (ap (λ t. magic_number ∷ b ∷ c ∷ d ∷ t)
            (length_prefixed e f g h n rest (omega arith) refl fits)),
    )
decode_message_sound [] m hb eq = unfold decode_message decode_message_into in ground arith
decode_message_sound _ m hb eq = unfold decode_message decode_message_into in ground arith

-- A sendable message in its layout is decoded, whatever follows it.
pub decode_message-layout :
    (m : Message) (rest : List ℕ)
    → IsSendable m
    → decode_message version1 (message_layout m ++ rest) ≡ done (ok m)
unfolding decode_message decode_message_into
decode_message-layout m rest s = ground (
  arith,
  n_eq,
  length-append m.payload rest,
  take-append m.payload rest (8 + length m.payload - 8) (omega arith),
)
  where
    n : ℕ
    n = u32 (length m.payload)

    n_eq :
        join32 (n / 16777216 % 256) (n / 65536 % 256) (n / 256 % 256) (n % 256) ≡ length m.payload
    n_eq = omega arith

-- So DecodeMessageInto, on the zero message, reports no error and fills it.
pub decode_message_into-layout :
    (m : Message)
    → IsSendable m
    → decode_message_into version1 (message_layout m) zero_message ≡ done (none, m)
decode_message_into-layout m s = or_error-ok _ m (
    unfold decode_message in
    (ap (decode_message version1) (sym (append-nil (message_layout m)))
      ∙ decode_message-layout m [] s))

-- DecodeMessage accepts bytes as the message `m` exactly when `m` is sendable and the bytes are its
-- layout, with any bytes behind it.
pub decode_message_iff :
    (bytes : List ℕ) (m : Message)
    → All IsByte bytes
    → (decode_message version1 bytes ≡ done (ok m))
      ↔ (IsSendable m × ((rest : List ℕ) × (bytes ≡ message_layout m ++ rest)))
decode_message_iff bytes m hb = (
  λ eq. let (rest, s, e) = decode_message_sound bytes m hb eq in (s, (rest, e)),
  λ (s, (rest, e)). rw e (decode_message-layout m rest s),
)

-- What DecodeMessageInto leaves in its target does not depend on the payload that was there: on
-- success the target is replaced, and on an error its payload stays.
pub decode_message_into-target :
    (version : ℕ) (bytes : List ℕ) (target other : Message) (e : Option Error) (m : Message)
    → decode_message_into version bytes target ≡ done (e, m)
    → ((e ≡ none) × (decode_message_into version bytes other ≡ done (none, m)))
      ⊎ ((e ≢ none) × (m.payload ≡ target.payload))
unfolding decode_message_into
decode_message_into-target v [] t o e m h = ground arith
decode_message_into-target v (a ∷ b ∷ c ∷ d ∷ f ∷ g ∷ k ∷ l ∷ rest) t o e m h = ground arith
decode_message_into-target v (a ∷ short) t o e m h = ground arith
