-- ===== src/PetHash/Erased.antt =====
-- The counters after an entry is gone.
use pet_ps.Common.{
  ℕ, ◌+◌, ◌<◌, ◌==◌, ◌≡◌, ◌≢◌, refl, ap, sym, arith, Bool-cases, inl, inr, ne→==, eq→==, ==→eq,
}
use pet_ps.PetHash.Chunk
use pet_ps.PetHash.Chunk.{Item, Chunk, max_size}
use pet_ps.PetHash.Invariant.{demand, slot_load, demand-congr, demand-replace}
use pet_ps.PetHash.Removal.{lower, all_lowered, erased}

module _ (f : ℕ → Chunk) (w : ℕ → ℕ) (p id : ℕ) where
  -- Every slot but the erased one is kept.
  pub kept :
      (c j : ℕ)
      → ¬ ((c ≡ p) × (j ≡ id))
      → ((erased f w p id c).tags j ≡ (f c).tags j) × ((erased f w p id c).value j ≡ (f c).value j)
  unfolding Chunk.delete
  kept c j h = elim (Bool-cases (p == c)) [
    | inr e ↦ rw e (refl, refl)
    | inl e ↦
        let same : p ≡ c = ==→eq p c e in
        let apart : id ≢ j = λ i. h (sym same, sym i) in
        rw (e, ne→== id j apart)
          (ap (λ (q : ℕ). (f q).tags j) same, ap (λ (q : ℕ). (f q).value j) same)
  ]

  pub emptied : (erased f w p id p).tags id ≡ 0
  unfolding Chunk.delete
  emptied = rw (eq→== p p refl, eq→== id id refl) refl

  pub erased_overflow :
      (c : ℕ) → (erased f w p id c).overflow_count ≡ lower (f c).overflow_count (w c)
  unfolding Chunk.delete
  erased_overflow c = elim (Bool-cases (p == c)) [
    | inr e ↦ rw e refl
    | inl e ↦ rw (e, ==→eq p c e) refl
  ]

  pub erased_migrating : (c : ℕ) → (erased f w p id c).is_migrating ≡ (f c).is_migrating
  unfolding Chunk.delete
  erased_migrating c = elim (Bool-cases (p == c)) [
    | inr e ↦ rw e refl
    | inl e ↦ rw (e, ==→eq p c e) refl
  ]

  -- The demand falls by that of the erased slot.
  pub demand-erased :
      (crc : ℕ → ℕ) (n c : ℕ)
      → p < n
      → id < max_size
      → demand crc n (erased f w p id) c + slot_load crc n f c p id ≡ demand crc n f c
  unfolding slot_load Chunk.delete
  demand-erased crc n c l k =
      let g = erased f w p id in
      let low = all_lowered f w in
      let same = demand-congr crc n c f low (λ q. (refl, refl)) in
      let change =
        demand-replace crc n c p id low g l k (λ q m ne. rw (ne→== p q (λ e. ne (sym e))) refl)
          (λ j ne. rw (eq→== p p refl, ne→== id j (λ e. ne (sym e))) refl)
          (λ j ne. rw (eq→== p p refl, ne→== id j (λ e. ne (sym e))) refl) in
      let none_left : slot_load crc n g c p id ≡ 0 = rw (emptied) refl in
      let before : slot_load crc n low c p id ≡ slot_load crc n f c p id = refl in
      omega (arith, same, change, none_left, before)
