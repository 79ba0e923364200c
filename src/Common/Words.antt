-- ===== src/Common/Words.antt =====
-- Bytes, and the big-endian words of encoding/binary.
use Prim.Native.Nat.{ℕ, zero, suc, ◌+◌, ◌*◌, ◌/◌, ◌%◌, ◌^◌, ◌≤◌, ◌<◌}
use mathlib.Core.Path.{◌≡◌, ap, sym}
use mathlib.Core.Logic.{◌≢◌}
use mathlib.Core.List.{List, [], ◌∷◌, ◌++◌}
use native.Mathlib.Omega.{arith}
use sco.Common.Lists.{All, length, take, drop, length-take, take-append-drop}
use sco.Common.Run.{Run, done, panic}

abbrev pub IsByte : ℕ → Type 0
IsByte b = b < 256

abbrev pub u16 : ℕ → ℕ
u16 v = v % 2 ^ 16

abbrev pub u32 : ℕ → ℕ
u32 v = v % 2 ^ 32

-- binary.BigEndian.PutUint16 and PutUint32: the bytes that they store.
abbrev pub be16 : ℕ → List ℕ
be16 v = v / 256 % 256 ∷ v % 256 ∷ []

abbrev pub be32 : ℕ → List ℕ
be32 v = v / 16777216 % 256 ∷ v / 65536 % 256 ∷ v / 256 % 256 ∷ v % 256 ∷ []

-- The source joins the shifted bytes by `|`; they have no bit in common.
abbrev pub join16 : ℕ → ℕ → ℕ
join16 a b = a * 256 + b

abbrev pub join32 : ℕ → ℕ → ℕ → ℕ → ℕ
join32 a b c d = a * 16777216 + b * 65536 + c * 256 + d

abbrev read16 : List ℕ → Run ℕ
read16 (a ∷ b ∷ r) = done (join16 a b)
read16 _ = panic

abbrev read32 : List ℕ → Run ℕ
read32 (a ∷ b ∷ c ∷ d ∷ r) = done (join32 a b c d)
read32 _ = panic

-- binary.BigEndian.Uint16(bytes[offset:]) and Uint32
abbrev pub uint16_at : List ℕ → ℕ → Run ℕ
uint16_at bytes offset = read16 (drop offset bytes)

abbrev pub uint32_at : List ℕ → ℕ → Run ℕ
uint32_at bytes offset = read32 (drop offset bytes)

pub be16-IsByte : (v : ℕ) → All IsByte (be16 v)
be16-IsByte v = omega arith

pub be32-IsByte : (v : ℕ) → All IsByte (be32 v)
be32-IsByte v = omega arith

pub join16-be16 : (v : ℕ) → v < 2 ^ 16 → join16 (v / 256 % 256) (v % 256) ≡ v
join16-be16 v h = omega arith

pub join32-be32 :
    (v : ℕ)
    → v < 2 ^ 32
    → join32 (v / 16777216 % 256) (v / 65536 % 256) (v / 256 % 256) (v % 256) ≡ v
join32-be32 v h = omega arith

pub be16-join16 : (a b : ℕ) → IsByte a → IsByte b → be16 (join16 a b) ≡ a ∷ b ∷ []
be16-join16 a b ha hb = ground arith

pub be32-join32 :
    (a b c d : ℕ)
    → IsByte a
    → IsByte b
    → IsByte c
    → IsByte d
    → be32 (join32 a b c d) ≡ a ∷ b ∷ c ∷ d ∷ []
be32-join32 a b c d ha hb hc hd = ground arith

pub join16-lt : (a b : ℕ) → IsByte a → IsByte b → join16 a b < 2 ^ 16
join16-lt a b ha hb = omega arith

pub join32-lt : (a b c d : ℕ) → IsByte a → IsByte b → IsByte c → IsByte d → join32 a b c d < 2 ^ 32
join32-lt a b c d ha hb hc hd = omega arith

-- Four bytes below the end are read.
pub uint32_at-returns : (xs : List ℕ) (i : ℕ) → i + 4 ≤ length xs → uint32_at xs i ≢ panic
uint32_at-returns (a ∷ b ∷ c ∷ d ∷ xs) zero h = λ e. cc
uint32_at-returns (x ∷ xs) (suc i) h = uint32_at-returns xs i (omega arith)
uint32_at-returns _ _ h = absurd (omega arith)

-- A length field and what follows it, cut where the field says.
pub length_prefixed :
    (e f g h k : ℕ) (rest : List ℕ)
    → All IsByte (e ∷ f ∷ g ∷ h ∷ [])
    → k ≡ join32 e f g h
    → k ≤ length rest
    → e ∷ f ∷ g ∷ h ∷ rest ≡ be32 (u32 (length (take k rest))) ++ (take k rest ++ drop k rest)
length_prefixed e f g h k rest hb hk fits =
    rw (take-append-drop k rest, size)
      (ap (λ t. t ++ rest)
        (sym (be32-join32 e f g h (omega arith) (omega arith) (omega arith) (omega arith))))
  where
    size : u32 (length (take k rest)) ≡ join32 e f g h
    size = omega (arith, length-take k rest)
