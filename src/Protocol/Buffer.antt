-- ===== src/Protocol/Buffer.antt =====
-- A Go byte slice with its capacity, as the encoders write into it.
use sco.Common.{
  ℕ, Bool, true, false, zero, suc, zero, suc, ◌+◌, ◌-◌, ◌≤◌, ◌≡◌, refl, List, [], ◌∷◌, take,
  replicate, length, overwrite, ltb, leb, if◌then◌else◌, arith, Bool-cases, inl, inr, ltb_false→le,
  length-replicate,
}
use sco.Common.Run.{Run, done, panic}
use sco.Common.Words.{be16, be32}

-- `array` runs from the slice's first byte to the end of its capacity.
pub record Buffer : Type 0 where
  pub array : List ℕ
  pub len : ℕ

-- nil
abbrev pub empty : Buffer
empty = record { array = []; len = 0 }

abbrev pub cap : Buffer → ℕ
cap b = length b.array

-- What a reader of the slice sees.
abbrev pub bytes : Buffer → List ℕ
bytes b = take b.len b.array

-- make([]byte, n)
abbrev pub make : ℕ → Buffer
make n = record { array = replicate n 0; len = n }

-- b[:n]
abbrev pub reslice : Buffer → ℕ → Run Buffer
reslice b n = if leb n (cap b) then done (record b { len = n }) else panic

-- if cap(b) < n { b = make([]byte, n) } else { b = b[:n] }
unfoldable pub ensure : Buffer → ℕ → Run Buffer
ensure b n = if ltb (cap b) n then done (make n) else reslice b n

-- i ≤ n, as the bounds checks below ask it
abbrev within : ℕ → ℕ → Bool
within zero n = true
within (suc i) zero = false
within (suc i) (suc n) = within i n

-- The bytes `xs` stored at b[offset:], with the bounds check of the store.
abbrev store : Buffer → ℕ → List ℕ → Run Buffer
store b offset xs =
    if within (offset + length xs) b.len
    then done (record b { array = overwrite offset xs b.array })
    else panic

-- b[offset] = v
abbrev pub set_byte : Buffer → ℕ → ℕ → Run Buffer
set_byte b offset v = store b offset (v ∷ [])

-- binary.BigEndian.PutUint16(b[offset:], v) and PutUint32
abbrev pub put_u16 : Buffer → ℕ → ℕ → Run Buffer
put_u16 b offset v = store b offset (be16 v)

abbrev pub put_u32 : Buffer → ℕ → ℕ → Run Buffer
put_u32 b offset v = store b offset (be32 v)

-- copy(b[offset:], src): as many bytes as both have.
abbrev pub copy_at : Buffer → ℕ → List ℕ → Run Buffer
copy_at b offset src =
    if within offset b.len
    then done (record b { array = overwrite offset (take (b.len - offset) src) b.array })
    else panic

-- `ensure` returns a slice of the wanted length, within its capacity.
pub ensure_lem :
    (b : Buffer) (n : ℕ) → (c : Buffer) × (ensure b n ≡ done c) × (c.len ≡ n) × (n ≤ length c.array)
unfolding ensure
ensure_lem b n = elim (Bool-cases (ltb (cap b) n)) [
  | inl e ↦ (make n, ground arith, refl, omega (arith, length-replicate {A = ℕ} n 0))
  | inr e ↦ (record b { len = n }, ground arith, refl, ltb_false→le _ _ e)
]
