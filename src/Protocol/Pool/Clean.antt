-- ===== src/Protocol/Pool/Clean.antt =====
-- What comes out of a pool, whatever was put into it.
use sco.Common.{ℕ, zero, suc, ◌*◌, ◌≤◌, ◌≡◌, refl, List, [], ◌∷◌, All, arith}
use sco.Protocol.{Message, Command, Response, zero_message, zero_command, zero_response}
use sco.Protocol.Buffer.{Buffer, cap}
use sco.Protocol.Pool.{
  pool_get, new_buffer, get_buffer, put_buffer, get_message, put_message, get_command, put_command,
  get_response, put_response,
}

-- A use of a pool: an item is taken, whichever it is, or one is put.
pub data Op {ℓ} (A : Type ℓ) : Type ℓ where
  take_any : ℕ → Op A
  put_back : A → Op A

module _ {ℓ} {A : Type ℓ} (new : A) (put : A → List A → List A) where
  -- The pool after any uses, from the empty pool on.
  abbrev pub after : List (Op A) → List A
  after [] = []
  after (take_any choice ∷ earlier) = (pool_get new choice (after earlier)).1
  after (put_back a ∷ earlier) = put a (after earlier)

module _ {ℓ κ} {A : Type ℓ} (new : A) (put : A → List A → List A) where
  pool_get-All :
      (P : A → Type κ) (choice : ℕ) (pool : List A)
      → P new
      → All P pool
      → P (pool_get new choice pool).0 × All P (pool_get new choice pool).1
  unfolding pool_get
  pool_get-All P choice [] n h = (n, tt)
  pool_get-All P zero (x ∷ xs) n h = (h.0, h.1)
  pool_get-All P (suc choice) (x ∷ xs) n h =
      let (a, b) = pool_get-All P choice xs n h.1 in (a, (h.0, b))

  after-All :
      (P : A → Type κ) (ops : List (Op A))
      → P new
      → ((a : A) (pool : List A) → All P pool → All P (put a pool))
      → All P (after new put ops)
  after-All P [] n keep = tt
  after-All P (take_any choice ∷ earlier) n keep =
      (pool_get-All P choice (after new put earlier) n (after-All P earlier n keep)).1
  after-All P (put_back a ∷ earlier) n keep =
      keep a (after new put earlier) (after-All P earlier n keep)

-- After any uses of the three pools of structs, what comes out is zeroed: nothing of a message, a
-- command or a response reaches the next user.
pub pools_are_clean :
    (ms : List (Op Message)) (cs : List (Op Command)) (rs : List (Op Response)) (i j k : ℕ)
    → ((get_message i (after zero_message put_message ms)).0 ≡ zero_message)
      × ((get_command j (after zero_command put_command cs)).0 ≡ zero_command)
      × ((get_response k (after zero_response put_response rs)).0 ≡ zero_response)
unfolding get_message put_message get_command put_command get_response put_response
pools_are_clean ms cs rs i j k = (
  (pool_get-All zero_message put_message (λ m. m ≡ zero_message) i _ refl
      (after-All zero_message put_message (λ m. m ≡ zero_message) ms refl
        (λ m pool h. (refl, h)))).0,
  (pool_get-All zero_command put_command (λ c. c ≡ zero_command) j _ refl
      (after-All zero_command put_command (λ c. c ≡ zero_command) cs refl
        (λ c pool h. (refl, h)))).0,
  (pool_get-All zero_response put_response (λ r. r ≡ zero_response) k _ refl
      (after-All zero_response put_response (λ r. r ≡ zero_response) rs refl
        (λ r pool h. (refl, h)))).0,
)

abbrev IsSmall : Buffer → Type 0
IsSmall b = cap b ≤ 64 * 1024

put_buffer-IsSmall :
    (b : Buffer) (pool : List Buffer) → All IsSmall pool → All IsSmall (put_buffer b pool)
unfolding put_buffer
put_buffer-IsSmall b pool h = ground arith

new_buffer-IsSmall : IsSmall new_buffer
new_buffer-IsSmall = omega arith

-- After any uses of a buffer pool, what comes out is empty, and holds on to at most 64 KB.
pub get_buffer-small :
    (ops : List (Op Buffer)) (i : ℕ)
    → ((get_buffer i (after new_buffer put_buffer ops)).0.len ≡ 0)
      × (cap (get_buffer i (after new_buffer put_buffer ops)).0 ≤ 64 * 1024)
unfolding get_buffer
get_buffer-small ops i = (
  refl,
  (pool_get-All new_buffer put_buffer IsSmall i _ new_buffer-IsSmall
      (after-All new_buffer put_buffer IsSmall ops new_buffer-IsSmall put_buffer-IsSmall)).0,
)
