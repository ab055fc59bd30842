-- ===== src/Load/Ranges.antt =====
-- How the threads share out the keys, and what one thread's keys come to.
use pet_ps.Common.{
  zero, suc, Bool, ap, ◌∙◌, Bool-cases, ℕ, ◌+◌, ◌-◌, ◌*◌, ◌<◌, ◌≤◌, min, ◌≡◌, ◌⊎◌, inl, inr, arith,
}
use native.Mathlib.Nat.{div-add-mod, mod-lt}
use pet_ps.Load.{first_key, rounds, kv_per_thread, count_own, is_own}

-- The first key that the threads from `i` on have.
abbrev pub position : ℕ → ℕ → ℕ → ℕ
position capacity per i = min (capacity + 1) (1 + i * per)

pub position-end :
    (capacity threads : ℕ)
    → 0 < threads
    → position capacity (kv_per_thread capacity threads) threads ≡ capacity + 1
unfolding kv_per_thread
position-end capacity threads some =
    let n = capacity + threads - 1 in
    let whole = div-add-mod n threads in
    let rest = mod-lt n some in omega (arith, whole, rest, some)

-- A thread's keys start where the threads before it end, or it has none.
pub thread-cases :
    (capacity per i : ℕ)
    → ((first_key per i ≡ position capacity per i)
        × (position capacity per i + rounds capacity per i ≡ position capacity per (i + 1)))
      ⊎ ((rounds capacity per i ≡ 0) × (position capacity per (i + 1) ≡ position capacity per i))
unfolding first_key rounds
thread-cases capacity per i =
    let split : (i * per ≤ capacity) ⊎ (capacity < i * per) = omega arith in
    elim split [
      | inl l ↦ inl (omega (arith, l), omega (arith, l))
      | inr l ↦ inr (omega (arith, l), omega (arith, l))
    ]

-- How many of a range of keys are the server's.
module _ (get_hash : ℕ → ℕ) (shards server_id : ℕ) where
  abbrev pub own : ℕ → Bool
  own key = is_own get_hash shards server_id key

  abbrev pub number : ℕ → ℕ → ℕ
  number = count_own get_hash shards server_id

  count_own-add : (j a b : ℕ) → number j (a + b) ≡ number j a + number (j + a) b
  unfolding count_own
  count_own-add j zero b = omega (arith, ap (λ n. number j n) plain, ap (λ n. number n b) here)
    where
      plain : 0 + b ≡ b
      plain = omega arith

      here : j ≡ j + 0
      here = omega arith
  count_own-add j (suc a) b =
      let shape : suc a + b ≡ suc (a + b) = omega arith in
      let there : j + 1 + a ≡ j + suc a = omega arith in
      let rest = count_own-add (j + 1) a b in
      let moved = ap (λ n. number n b) there in
      elim (Bool-cases (own j)) [
        | inl mine ↦ rw (mine) (ap (number j) shape ∙ rw mine (omega (arith, rest, moved)))
        | inr other ↦ rw (other) (ap (number j) shape ∙ rw other (omega (arith, rest, moved)))
      ]

  -- A range that is cut in two.
  pub count_own-split :
      (a b c : ℕ) → a ≤ b → b ≤ c → number a (c - a) ≡ number a (b - a) + number b (c - b)
  count_own-split a b c l m =
      let back : a + (b - a) ≡ b = omega (arith, l) in
      let joined : (b - a) + (c - b) ≡ c - a = omega (arith, l, m) in
      let size = ap (number a) joined in
      let middle = ap (λ j. number j (c - b)) back in
      omega (arith, size, middle, count_own-add a (b - a) (c - b))
