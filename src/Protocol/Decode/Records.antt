-- ===== src/Protocol/Decode/Records.antt =====
-- Which payloads the command and response decoders accept, and what they make of them.
use sco.Common.{
  ℕ, ◌+◌, ◌-◌, ◌/◌, ◌%◌, ◌≤◌, ◌≡◌, ◌↔◌, ◌≢◌, List, [], ◌∷◌, ◌++◌, length, take, drop, All, refl,
  none, append-nil, ◌∙◌, sym, arith, take-append, length-take, length-append,
}
use sco.Common.Run.{done, panic}
use sco.Common.Result.{ok}
use sco.Common.Words.{
  u32, be32, be16, IsByte, join32, join16, length_prefixed, be32-join32, be16-join16, join32-be32,
  join16-be16,
}
use sco.Protocol.{Message, Command, Response, zero_command}
use sco.Protocol.Layout.{record_layout, command_layout, response_layout, CommandFits, ResponseFits}
use sco.Protocol.Decode.{
  or_error-ok, decode_command_into, decode_command, decode_response_into, decode_response,
}

-- The head of a record's layout, from its bytes.
record_head :
    (a b c d i j e f g h : ℕ) (rest : List ℕ)
    → All IsByte (a ∷ b ∷ c ∷ d ∷ i ∷ j ∷ e ∷ f ∷ g ∷ h ∷ rest)
    → join32 e f g h ≤ length rest
    → a ∷ b ∷ c ∷ d ∷ i ∷ j ∷ e ∷ f ∷ g ∷ h ∷ rest
      ≡ record_layout (join32 a b c d) (join16 i j) (take (join32 e f g h) rest)
        ++ drop (join32 e f g h) rest
record_head a b c d i j e f g h rest hb fits = λ t.
    sym req t
    ++ (sym code t ++ length_prefixed e f g h (join32 e f g h) rest (omega arith) refl fits t)
  where
    req : be32 (join32 a b c d) ≡ a ∷ b ∷ c ∷ d ∷ []
    req = be32-join32 a b c d (omega arith) (omega arith) (omega arith) (omega arith)

    code : be16 (join16 i j) ≡ i ∷ j ∷ []
    code = be16-join16 i j (omega arith) (omega arith)

pub decode_command-ne-panic : (msg : Message) → decode_command msg ≢ panic
unfolding decode_command decode_command_into
decode_command-ne-panic m = go m.payload
  where
    go : (p : List ℕ) → decode_command (record m { payload = p }) ≢ panic
    go (a ∷ b ∷ c ∷ d ∷ i ∷ j ∷ e ∷ f ∷ g ∷ h ∷ rest) = ground arith
    go short = ground arith

accepted_command :
    (m : Message) (a b c d i j e f g h n : ℕ) (rest : List ℕ) (cmd : Command)
    → m.payload ≡ a ∷ b ∷ c ∷ d ∷ i ∷ j ∷ e ∷ f ∷ g ∷ h ∷ rest
    → n ≡ join32 e f g h
    → decode_command m ≡ done (ok cmd)
    → (n ≤ length rest)
      × (cmd
          ≡ record { req_id = join32 a b c d; id = join16 i j; payload = take (10 + n - 10) rest })
unfolding decode_command decode_command_into
accepted_command m a b c d i j e f g h n rest cmd hp hn eq = ground arith

decode_command_sound :
    (msg : Message) (cmd : Command)
    → All IsByte msg.payload
    → decode_command msg ≡ done (ok cmd)
    → (rest : List ℕ) × CommandFits cmd × (msg.payload ≡ command_layout cmd ++ rest)
decode_command_sound msg cmd = go msg.payload refl
  where
    go :
        (p : List ℕ)
        → msg.payload ≡ p
        → All IsByte p
        → decode_command msg ≡ done (ok cmd)
        → (rest : List ℕ) × CommandFits cmd × (p ≡ command_layout cmd ++ rest)
    go (a ∷ b ∷ c ∷ d ∷ i ∷ j ∷ e ∷ f ∷ g ∷ h ∷ rest) hp hb eq =
        let n = join32 e f g h in
        let (fits, hc) = accepted_command msg a b c d i j e f g h n rest cmd hp refl eq in
        let room : 10 + n - 10 ≡ n = omega arith in
        rw (hc, room)
          (
            drop n rest,
            record {
              req_id = omega arith;
              id = omega arith;
              payload = omega (arith, length-take n rest);
            },
            record_head a b c d i j e f g h rest hb fits,
          )
    go _ hp hb eq = unfold decode_command decode_command_into in ground arith

pub decode_command-layout :
    (msg : Message) (cmd : Command) (rest : List ℕ)
    → CommandFits cmd
    → msg.payload ≡ command_layout cmd ++ rest
    → decode_command msg ≡ done (ok cmd)
unfolding decode_command decode_command_into
decode_command-layout msg cmd rest s hp = ground (
  arith,
  join32-be32 cmd.req_id,
  join16-be16 cmd.id,
  n_eq,
  length-append cmd.payload rest,
  take-append cmd.payload rest (10 + length cmd.payload - 10) (omega arith),
)
  where
    n : ℕ
    n = u32 (length cmd.payload)

    n_eq :
        join32 (n / 16777216 % 256) (n / 65536 % 256) (n / 256 % 256) (n % 256) ≡ length cmd.payload
    n_eq = omega arith

-- So DecodeCommandInto, on the zero command, reports no error and fills it.
pub decode_command_into-layout :
    (msg : Message) (cmd : Command)
    → CommandFits cmd
    → msg.payload ≡ command_layout cmd
    → decode_command_into msg zero_command ≡ done (none, cmd)
decode_command_into-layout msg cmd s hp = or_error-ok (decode_command_into msg zero_command) cmd (
    unfold decode_command in
    decode_command-layout msg cmd [] s (hp ∙ sym (append-nil (command_layout cmd))))

-- DecodeCommand accepts a payload as the command `cmd` exactly when the fields of `cmd` are within
-- their Go types and the payload is its layout, with any bytes behind it.
pub decode_command_iff :
    (msg : Message) (cmd : Command)
    → All IsByte msg.payload
    → (decode_command msg ≡ done (ok cmd))
      ↔ (CommandFits cmd × ((rest : List ℕ) × (msg.payload ≡ command_layout cmd ++ rest)))
decode_command_iff msg cmd hb = (
  λ eq. let (rest, s, e) = decode_command_sound msg cmd hb eq in (s, (rest, e)),
  λ (s, (rest, e)). decode_command-layout msg cmd rest s e,
)

pub decode_response-ne-panic : (msg : Message) → decode_response msg ≢ panic
unfolding decode_response decode_response_into
decode_response-ne-panic m = go m.payload
  where
    go : (p : List ℕ) → decode_response (record m { payload = p }) ≢ panic
    go (a ∷ b ∷ c ∷ d ∷ i ∷ j ∷ e ∷ f ∷ g ∷ h ∷ rest) = ground arith
    go short = ground arith

accepted_response :
    (m : Message) (a b c d i j e f g h n : ℕ) (rest : List ℕ) (resp : Response)
    → m.payload ≡ a ∷ b ∷ c ∷ d ∷ i ∷ j ∷ e ∷ f ∷ g ∷ h ∷ rest
    → n ≡ join32 e f g h
    → decode_response m ≡ done (ok resp)
    → (n ≤ length rest)
      × (resp ≡ record {
        req_id = join32 a b c d;
        code = join16 i j;
        payload = take (10 + n - 10) rest;
      })
unfolding decode_response decode_response_into
accepted_response m a b c d i j e f g h n rest resp hp hn eq = ground arith

decode_response_sound :
    (msg : Message) (resp : Response)
    → All IsByte msg.payload
    → decode_response msg ≡ done (ok resp)
    → (rest : List ℕ) × ResponseFits resp × (msg.payload ≡ response_layout resp ++ rest)
decode_response_sound msg resp = go msg.payload refl
  where
    go :
        (p : List ℕ)
        → msg.payload ≡ p
        → All IsByte p
        → decode_response msg ≡ done (ok resp)
        → (rest : List ℕ) × ResponseFits resp × (p ≡ response_layout resp ++ rest)
    go (a ∷ b ∷ c ∷ d ∷ i ∷ j ∷ e ∷ f ∷ g ∷ h ∷ rest) hp hb eq =
        let n = join32 e f g h in
        let (fits, hc) = accepted_response msg a b c d i j e f g h n rest resp hp refl eq in
        let room : 10 + n - 10 ≡ n = omega arith in
        rw (hc, room)
          (
            drop n rest,
            record {
              req_id = omega arith;
              code = omega arith;
              payload = omega (arith, length-take n rest);
            },
            record_head a b c d i j e f g h rest hb fits,
          )
    go _ hp hb eq = unfold decode_response decode_response_into in ground arith

pub decode_response-layout :
    (msg : Message) (resp : Response) (rest : List ℕ)
    → ResponseFits resp
    → msg.payload ≡ response_layout resp ++ rest
    → decode_response msg ≡ done (ok resp)
unfolding decode_response decode_response_into
decode_response-layout msg resp rest s hp = ground (
  arith,
  join32-be32 resp.req_id,
  join16-be16 resp.code,
  n_eq,
  length-append resp.payload rest,
  take-append resp.payload rest (10 + length resp.payload - 10) (omega arith),
)
  where
    n : ℕ
    n = u32 (length resp.payload)

    n_eq :
        join32 (n / 16777216 % 256) (n / 65536 % 256) (n / 256 % 256) (n % 256)
        ≡ length resp.payload
    n_eq = omega arith

-- DecodeResponse accepts a payload as the response `resp` exactly when the fields of `resp` are within
-- their Go types and the payload is its layout, with any bytes behind it.
pub decode_response_iff :
    (msg : Message) (resp : Response)
    → All IsByte msg.payload
    → (decode_response msg ≡ done (ok resp))
      ↔ (ResponseFits resp × ((rest : List ℕ) × (msg.payload ≡ response_layout resp ++ rest)))
decode_response_iff msg resp hb = (
  λ eq. let (rest, s, e) = decode_response_sound msg resp hb eq in (s, (rest, e)),
  λ (s, (rest, e)). decode_response-layout msg resp rest s e,
)
