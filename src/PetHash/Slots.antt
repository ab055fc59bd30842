-- ===== src/PetHash/Slots.antt =====
-- The slot that `Insert` takes, and the count of used slots under `Insert` and `Delete`.
use pet_ps.Common.{
  ℕ, ◌+◌, ◌%◌, ◌<◌, ◌≤◌, none, some, ◌≡◌, ◌≢◌, refl, ap, arith, sum_below, sum_below-congr,
  sum_below-const, sum_below-replace, ◌∙◌, lt→ltb, ne→==,
}
use pet_ps.Common.Bits.{ctz, ctz_lem}
use pet_ps.Common.Bitwise.{bit, bit-zero}
use pet_ps.PetHash.Chunk.{Chunk, max_size, match_tag, insert, set, delete}
use pet_ps.PetHash.Find.{used, IsCounted, size-le, match_tag-lt, bit-match_tag, bit-match_tag_slot}

-- The chunk with an entry put in slot `id`.
abbrev pub filled : Chunk → ℕ → ℕ → ℕ → ℕ → Chunk
unfolding set
filled c id key value sign =
    set (record c { size = (c.size + 1) % 256 }) id sign (record { first = key; second = value })

-- A free slot shows in the mask of tag 0.
match_free : (c : Chunk) (k : ℕ) → match_tag c 0 ≡ 0 → k < max_size → used c k ≡ 1
unfolding used
match_free c k h l = ground (arith, bit-match_tag c 0 k l, ap (λ (t : ℕ). bit t k) h, bit-zero k)

all_used : (c : Chunk) → match_tag c 0 ≡ 0 → sum_below max_size (used c) ≡ max_size
all_used c h =
    sum_below-congr max_size (used c) (λ _. 1) (λ k l. match_free c k h l)
    ∙ sum_below-const max_size 1

free_slot :
    (c : Chunk)
    → match_tag c 0 ≢ 0
    → (ctz 32 (match_tag c 0) < max_size) × (c.tags (ctz 32 (match_tag c 0)) ≡ 0)
free_slot c h =
    let it = match_tag c 0 in
    let (small, one, zeros) = ctz_lem 32 it (omega (arith, match_tag-lt c 0)) h in
    let slot = bit-match_tag_slot c 0 (ctz 32 it) one in
    (slot, ground (arith, bit-match_tag c 0 (ctz 32 it) slot))

-- In a chunk that is not full `Insert` takes a free slot.
pub insert-room :
    (c : Chunk) (key value sign : ℕ)
    → IsCounted c
    → c.size < max_size
    → (id : ℕ) × (insert c key value sign ≡ some (filled c id key value sign, id))
      × (id < max_size)
      × (c.tags id ≡ 0)
unfolding insert used
insert-room c key value sign v room =
    let c' : Chunk = record c { size = (c.size + 1) % 256 } in
    let it = match_tag c' 0 in
    let same : sum_below max_size (used c') ≡ sum_below max_size (used c) = refl in
    let some_free : it ≢ 0 = λ h. absurd (omega (arith, all_used c' h, v.counted, same)) in
    let (slot, free) = free_slot c' some_free in
    (ctz 32 it, rw (lt→ltb c.size max_size room, ne→== it 0 some_free), slot, free)

module _ (c : Chunk) (v : IsCounted c) where
  -- A full chunk fails the check of `Insert`.
  pub insert_full : (key value sign : ℕ) → max_size ≤ c.size → insert c key value sign ≡ none
  unfolding insert
  insert_full key value sign h = ground arith

  pub filled-IsCounted :
      (id key value sign : ℕ)
      → c.size < max_size
      → id < max_size
      → c.tags id ≡ 0
      → sign ≢ 0
      → IsCounted (filled c id key value sign)
  unfolding set used
  filled-IsCounted id key value sign room l free h =
      let c' = filled c id key value sign in
      let step = sum_below-replace max_size id (used c) (used c') l (λ j k ne. ground arith) in
      record { counted = ground (arith, step, v.counted) }

  pub delete-IsCounted : (id : ℕ) → id < max_size → c.tags id ≢ 0 → IsCounted (delete c id)
  unfolding delete used
  delete-IsCounted id l busy =
      let c' = delete c id in
      let step = sum_below-replace max_size id (used c) (used c') l (λ j k ne. ground arith) in
      record { counted = ground (arith, step, v.counted, size-le c v) }
