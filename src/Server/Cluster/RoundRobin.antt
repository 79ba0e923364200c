-- ===== src/Server/Cluster/RoundRobin.antt =====
-- How the picks of a service spread over its endpoints (PickEndpoint in
-- server/internal/cluster/model.go, called again and again on one service).
use sco.Common.{
  ℕ, zero, suc, ◌+◌, ◌-◌, ◌%◌, ◌^◌, ◌≤◌, ◌<◌, ◌≡◌, ◌≢◌, refl, sym, ap, ap₂, subst, ◌∙◌, List, [],
  ◌∷◌, ◌++◌, map, Option, some, length, get_elem?, take, drop, take_all, length-drop, arith, if_pos,
  if_neg,
}
use sco.Common.Run.{Run, done, index, ◌>>=◌}
use sco.Common.Text.{Text}
use sco.Common.Int.{pos, plus, wrap64}
use sco.Common.Dict.{text_key, lookup}
use sco.Server.Cluster.{
  Endpoint, Service, load_balance_strategy_random, load_balance_strategy_round_robin, pick_from,
  pick_endpoint,
}
use native.Mathlib.Nat.{suc-mod, mod-eq_of_lt, mod_self, mod-lt, mod-add-mod}

-- The endpoints that a counter points to, from `c` on, `n` of them.
abbrev pub cycle : List Endpoint → ℕ → ℕ → List (Option Endpoint)
cycle es c zero = []
cycle es c (suc n) = get_elem? es (c % length es) ∷ cycle es (suc c) n

-- Calls of PickEndpoint for one port, with what rand.Int returns in each.
abbrev pub picks :
    {F : Type 0} → Text → List ℕ → Service F → Run (List (Option Endpoint) × Service F)
picks port [] s = done ([], s)
picks port (random ∷ rest) s = do
  (e, s') ← pick_endpoint random port s
  (es, s'') ← picks port rest s'
  done (e ∷ es, s'')

drop-cons {ℓ} :
    {A : Type ℓ} (i : ℕ) (xs : List A)
    → i < length xs
    → (x : A) × (get_elem? xs i ≡ some x)
      × (index xs i ≡ done x)
      × (drop i xs ≡ x ∷ drop (suc i) xs)
drop-cons i [] h = absurd (omega arith)
drop-cons zero (x ∷ xs) h = (x, refl, refl, refl)
drop-cons (suc i) (x ∷ xs) h = drop-cons i xs (omega arith)

next-mod : (c n : ℕ) → suc (c % n) < n → suc c % n ≡ suc (c % n)
next-mod c n h = suc-mod c n ∙ mod-eq_of_lt h

wrap-mod : (c n : ℕ) → 0 < n → (c + (n - c % n)) % n ≡ 0
wrap-mod c n h =
    let whole : c % n + (n - c % n) ≡ n = omega (arith, mod-lt c h) in
    sym (mod-add-mod c n (n - c % n)) ∙ (ap (λ t. t % n) whole ∙ mod_self n)

-- Up to the end of the list, a cycle is a piece of it.
cycle-piece :
    (es : List Endpoint) (c n : ℕ)
    → 0 < length es
    → c % length es + n ≤ length es
    → cycle es c n ≡ map some (take n (drop (c % length es) es))
cycle-piece es c zero p h = refl
cycle-piece es c (suc zero) p h =
    let (x, g, i, d) = drop-cons (c % length es) es (mod-lt c p) in rw (g, d) refl
cycle-piece es c (suc (suc n)) p h =
    let (x, g, i, d) = drop-cons (c % length es) es (mod-lt c p) in
    let step = next-mod c (length es) (omega arith) in
    let rest = cycle-piece es (suc c) (suc n) p (omega (arith, step)) in
    rw (g, d) (ap (λ t. some x ∷ t) (rest ∙ ap (λ t. map some (take (suc n) (drop t es))) step))

cycle-add :
    (es : List Endpoint) (c m n : ℕ) → cycle es c (m + n) ≡ cycle es c m ++ cycle es (c + m) n
cycle-add es c zero n = ap₂ (λ i k. cycle es i k) (omega arith) (omega arith)
cycle-add es c (suc m) n =
    let later : suc m + n ≡ suc (m + n) = omega arith in
    ap (λ k. cycle es c k) later
    ∙ ap (λ t. get_elem? es (c % length es) ∷ t)
        (cycle-add es (suc c) m n ∙ ap (λ k. cycle es (suc c) m ++ cycle es k n) (omega arith))

cycle-round :
    (es : List Endpoint) (c : ℕ)
    → 0 < length es
    → cycle es c (length es)
      ≡ map some (drop (c % length es) es) ++ map some (take (c % length es) es)
cycle-round es c p =
    let L = length es in
    let r = c % L in
    let a = L - r in
    let inside = mod-lt c p in
    let whole : a + r ≡ L = omega arith in
    let tail : (c + a) % L ≡ 0 = wrap-mod c L p in
    let first = cycle-piece es c a p (omega arith) in
    let second = cycle-piece es (c + a) r p (omega arith) in
    let all = take_all a (drop r es) (omega (arith, length-drop r es)) in
    ap (λ n. cycle es c n) (sym whole)
    ∙ (cycle-add es c a r
        ∙ ap₂ (λ xs ys. xs ++ ys) (first ∙ ap (map some) all)
            (second ∙ ap (λ t. map some (take r (drop t es))) tail))

-- The counter goes up by one where it stays an int.
counts_up : (c : ℕ) → c + 1 < 2 ^ 63 → wrap64 (plus (pos c) (pos 1)) ≡ pos (c + 1)
counts_up c h = ground arith

pick_endpoint-round_robin :
    {F : Type 0} (random : ℕ) (port : Text) (s : Service F) (es : List Endpoint) (c : ℕ)
    → lookup port s.endpoints ≡ some es
    → 0 < length es
    → s.load_balance_strategy ≡ load_balance_strategy_round_robin
    → s.round_robin_counter ≡ pos c
    → c + 1 < 2 ^ 63
    → pick_endpoint random port s
      ≡ done (get_elem? es (c % length es), record s { round_robin_counter = pos (c + 1) })
unfolding pick_endpoint pick_from
pick_endpoint-round_robin random port s es c f p h at fits =
    let (x, g, i, d) = drop-cons (c % length es) es (mod-lt c p) in
    let differs : s.load_balance_strategy ≢ load_balance_strategy_random = cc in
    rw (f, if_neg _ differs, if_pos _ h, at, counts_up c fits, i, g, pick_endpoint, pick_from) refl

picks-cycle :
    {F : Type 0} (port : Text) (rs : List ℕ) (s : Service F) (es : List Endpoint) (c : ℕ)
    → lookup port s.endpoints ≡ some es
    → 0 < length es
    → s.load_balance_strategy ≡ load_balance_strategy_round_robin
    → s.round_robin_counter ≡ pos c
    → c + length rs < 2 ^ 63
    → picks port rs s
      ≡ done (cycle es c (length rs), record s { round_robin_counter = pos (c + length rs) })
picks-cycle port [] s es c f p h at fits =
    let same_count : c ≡ c + 0 = omega arith in
    ap (λ k. done ([], record s { round_robin_counter = k })) (at ∙ ap pos same_count)
picks-cycle port (random ∷ rs) s es c f p h at fits =
    let s' = record s { round_robin_counter = pos (c + 1) } in
    let rest = picks-cycle port rs s' es (c + 1) f p h refl (omega arith) in
    rw (pick_endpoint-round_robin random port s es c f p h at (omega arith), rest)
      (ap₂
        (λ i k. done (
          get_elem? es (c % length es) ∷ cycle es i (length rs),
          record s { round_robin_counter = pos k },
        ))
        (omega arith) (omega arith))

-- Calls of PickEndpoint one after the other, none at the same time, on a service with round robin for
-- a port with n endpoints, n not 0, whose counter is c, with c + n below 2^63: n calls return each
-- endpoint once, those from c on, modulo n, and then those before it. The counter is n further.
pub picks-round :
    {F : Type 0} (port : Text) (rs : List ℕ) (s : Service F) (es : List Endpoint) (c : ℕ)
    → lookup port s.endpoints ≡ some es
    → 0 < length es
    → length rs ≡ length es
    → s.load_balance_strategy ≡ load_balance_strategy_round_robin
    → s.round_robin_counter ≡ pos c
    → c + length es < 2 ^ 63
    → picks port rs s
      ≡ done (
        map some (drop (c % length es) es) ++ map some (take (c % length es) es),
        record s { round_robin_counter = pos (c + length es) },
      )
picks-round port rs s es c f p n h at fits =
    let all = picks-cycle port rs s es c f p h at (omega arith) in
    let counted =
      subst
        (λ k. picks port rs s ≡ done (cycle es c k, record s { round_robin_counter = pos (c + k) }))
        n all in
    rw (sym (cycle-round es c p)) counted
