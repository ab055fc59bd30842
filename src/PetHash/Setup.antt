-- ===== src/PetHash/Setup.antt =====
-- A table after `Initialize`.
use pet_ps.Common.{
  ℕ, zero, suc, ◌+◌, ◌-◌, ◌*◌, ◌/◌, ◌^◌, ◌<◌, ◌≤◌, Bool, false, if◌then◌else◌, ◌≡◌, refl, ap, sym,
  arith, Bool-cases, inl, inr, ◌⊎◌, ltb, lt→ltb, ltb→lt, sum_below, sum_below-congr,
  sum_below-const,
}
use pet_ps.Common.Outcome.{done}
use pet_ps.Common.Pow.{pow_double}
use pet_ps.PetHash.Chunk
use pet_ps.PetHash.Chunk.{Item, Chunk, max_size}
use pet_ps.PetHash.Find.{used}
use pet_ps.PetHash.Table.{
  PetHash, next2_power_from, next2_power, over_fall_chunk_num, initialize, zero_chunk,
}
use pet_ps.PetHash.Search.{get}
use pet_ps.PetHash.Invariant.{Absent, Inv, demand, chunk_load, slot_load}
use pet_ps.PetHash.Lookup.{get-Absent}

-- The doubling stops at the first power of two that is not below `size`.
next2_power_from_lem :
    (left k size : ℕ)
    → size ≤ 2 ^ (k + left)
    → (j : ℕ) × (next2_power_from left (2 ^ k) size ≡ 2 ^ j)
      × (size ≤ 2 ^ j)
      × ((j ≡ k) ⊎ (2 ^ j < 2 * size))
unfolding next2_power_from
next2_power_from_lem zero k size h =
    (k, refl, omega (arith, ap (λ (x : ℕ). 2 ^ x) (plus_zero k)), inl refl)
  where
    plus_zero : (k : ℕ) → k + 0 ≡ k
    plus_zero k = omega arith
next2_power_from_lem (suc left) k size h = elim (Bool-cases (ltb (2 ^ k) size)) [
  | inr stop ↦ (k, rw stop refl, ground (arith, stop), inl refl)
  | inl more ↦
      let twice : 2 ^ k * 2 ≡ 2 ^ suc k = omega (arith, pow_double k) in
      let bound : size ≤ 2 ^ (suc k + left) =
        omega (arith, h, ap (λ (x : ℕ). 2 ^ x) (suc_add k left)) in
      let (j, e, le, alt) = next2_power_from_lem left (suc k) size bound in
      let short : 2 ^ j < 2 * size = elim alt [
        | inl same ↦ omega (arith, ap (λ (x : ℕ). 2 ^ x) same, pow_double k, ltb→lt _ _ more)
        | inr l ↦ l
      ] in
      (j, rw (more, twice) e, le, inr short)
]
  where
    suc_add : (k left : ℕ) → k + suc left ≡ suc k + left
    suc_add k left = omega arith

-- For a size of at most 2 ^ 64, `Next2Power` returns the least power of two that is not below it.
pub next2_power_lem :
    (size : ℕ)
    → size ≤ 2 ^ 64
    → (j : ℕ) × (next2_power size ≡ 2 ^ j) × (size ≤ 2 ^ j) × ((j ≡ 0) ⊎ (2 ^ j < 2 * size))
unfolding next2_power
next2_power_lem size h = next2_power_from_lem 64 0 size (omega arith)

-- The chunks that `Initialize` takes hold the requested capacity.
pub over_fall_chunk_num_lem :
    (capacity : ℕ)
    → capacity < 2 ^ 64
    → (j : ℕ) × (over_fall_chunk_num capacity ≡ 2 ^ j)
      × (capacity ≤ over_fall_chunk_num capacity * max_size)
unfolding over_fall_chunk_num
over_fall_chunk_num_lem capacity h =
    let (j, e, le, _) = next2_power_lem ((capacity + max_size - 1) / max_size) (omega arith) in
    (j, e, omega (arith, e, le))

module _ (crc : ℕ → ℕ) (scale : ℕ → ℕ) (t : PetHash) (capacity : ℕ) (ignore : Bool) where
  abbrev asked : ℕ
  asked = if ignore then capacity else scale capacity

  abbrev fresh : PetHash
  fresh = initialize scale t capacity ignore

  abbrev n : ℕ
  n = over_fall_chunk_num asked

  fresh_chunk : (p : ℕ) → p < n → fresh.chunk_table p ≡ Chunk.initialize zero_chunk
  unfolding initialize
  fresh_chunk p l = rw (lt→ltb p n l) refl

  pub fresh_Absent : (q : ℕ) → Absent fresh q
  unfolding initialize Chunk.initialize
  fresh_Absent q p id s = s.busy (ap (λ (c : Chunk). c.tags id) (fresh_chunk p s.chunk))

  zero_sum : (m : ℕ) (f : ℕ → ℕ) → ((j : ℕ) → j < m → f j ≡ 0) → sum_below m f ≡ 0
  zero_sum m f h = omega (arith, sum_below-congr m f (λ _. 0) h, sum_below-const m 0)

  fresh_demand : (c : ℕ) → demand crc n fresh.chunk_table c ≡ 0
  unfolding demand chunk_load slot_load Chunk.initialize
  fresh_demand c = zero_sum n _ (λ p l.
      zero_sum max_size _ (λ id k. rw (ap (λ (x : Chunk). x.tags id) (fresh_chunk p l)) refl))

  -- When the slots can be counted in 64 bits, `Initialize` makes a well-formed table that has at
  -- least the capacity asked for and in which no key reads a value.
  pub initialize-Inv :
      asked < 2 ^ 64
      → n * max_size < 2 ^ 64
      → Inv crc (initialize scale t capacity ignore) (λ _. 0)
        × (asked ≤ (initialize scale t capacity ignore).capacity)
        × ((q : ℕ) → get crc (initialize scale t capacity ignore) q ≡ done (0, false))
  unfolding initialize Chunk.initialize used
  initialize-Inv small room =
      let (j, e, le) = over_fall_chunk_num_lem asked small in
      let v : Inv crc fresh (λ _. 0) = record {
        width = j;
        power = e;
        room = room;
        slots = refl;
        counted = λ p l.
            rw (fresh_chunk p l) (record { counted = sym (zero_sum max_size _ (λ i k. refl)) });
        bytes = λ p l. omega (arith, ap (λ (c : Chunk). c.overflow_count) (fresh_chunk p l));
        settled = λ p l. ap (λ (c : Chunk). c.is_migrating) (fresh_chunk p l);
        tagged = λ key p id s. absurd (fresh_Absent key p id s);
        placed = λ key p id s. absurd (fresh_Absent key p id s);
        unique = λ key p id p' id' s _. absurd (fresh_Absent key p id s);
        covered = λ c l. inr (omega (arith, fresh_demand c));
        total = sym (zero_sum n _ (λ p l. ap (λ (c : Chunk). c.size) (fresh_chunk p l)));
      } in
      (v, le, λ q. get-Absent crc v q (fresh_Absent q))
