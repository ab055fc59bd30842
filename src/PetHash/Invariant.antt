-- ===== src/PetHash/Invariant.antt =====
-- When a table is well formed. `pending` counts, for each chunk, the increments of an insertion
-- that is under way; between operations it is zero.
use pet_ps.Common.{
  ℕ, ◌+◌, ◌*◌, ◌^◌, ◌<◌, ◌≤◌, false, ◌==◌, if◌then◌else◌, ◌≡◌, ◌≢◌, ap, arith, ◌⊎◌, count,
  sum_below, sum_below-congr, sum_below-replace, le-sum_below, ne→==,
}
use pet_ps.PetHash.Chunk.{Chunk, max_size}
use pet_ps.PetHash.Find.{IsCounted}
use pet_ps.PetHash.Table.{PetHash, tag_of}
use pet_ps.PetHash.Walk.{key_walk, KeyArrives}

-- Slot `id` of chunk `p` holds `key`.
pub record Stored (t : PetHash) (key p id : ℕ) : Type 0 where
  pub chunk : p < t.chunk_num
  pub slot : id < max_size
  pub busy : (t.chunk_table p).tags id ≢ 0
  pub named : ((t.chunk_table p).value id).first ≡ key

-- No slot holds `key`.
abbrev pub Absent : PetHash → ℕ → Type 0
Absent t key = (p id : ℕ) → ¬ Stored t key p id

module _ (crc : ℕ → ℕ) where
  -- How often the walk to a slot's entry passes chunk `c`.
  unfoldable pub slot_load : ℕ → (ℕ → Chunk) → ℕ → ℕ → ℕ → ℕ
  slot_load n table c p id =
      if (table p).tags id == 0 then 0 else count c (key_walk crc n ((table p).value id).first p)

  unfoldable pub chunk_load : ℕ → (ℕ → Chunk) → ℕ → ℕ → ℕ
  chunk_load n table c p = sum_below max_size (slot_load n table c p)

  -- How many stored entries have passed chunk `c`.
  unfoldable pub demand : ℕ → (ℕ → Chunk) → ℕ → ℕ
  demand n table c = sum_below n (chunk_load n table c)

  pub record Inv (t : PetHash) (pending : ℕ → ℕ) : Type 0 where
    pub width : ℕ
    pub power : t.chunk_num ≡ 2 ^ width
    pub room : t.chunk_num * max_size < 2 ^ 64
    pub slots : t.capacity ≡ t.chunk_num * max_size
    pub counted : (p : ℕ) → p < t.chunk_num → IsCounted (t.chunk_table p)
    pub bytes : (p : ℕ) → p < t.chunk_num → (t.chunk_table p).overflow_count ≤ 255
    pub settled : (p : ℕ) → p < t.chunk_num → (t.chunk_table p).is_migrating ≡ false
    pub tagged : (key p id : ℕ) → Stored t key p id → (t.chunk_table p).tags id ≡ tag_of crc key
    pub placed : (key p id : ℕ) → Stored t key p id → KeyArrives crc t.chunk_num key p
    pub unique :
        (key p id p' id' : ℕ) → Stored t key p id → Stored t key p' id' → (p ≡ p') × (id ≡ id')
    -- A counter that has reached 255 stays there.
    pub covered :
        (c : ℕ)
        → c < t.chunk_num
        → ((t.chunk_table c).overflow_count ≡ 255)
          ⊎ (demand t.chunk_num t.chunk_table c + pending c ≤ (t.chunk_table c).overflow_count)
    pub total : t.size ≡ sum_below t.chunk_num (λ p. (t.chunk_table p).size)

  -- Chunks with the same slots make the same demand.
  abbrev pub SameSlots : (ℕ → Chunk) → (ℕ → Chunk) → Type 0
  SameSlots f g = (p : ℕ) → ((f p).tags ≡ (g p).tags) × ((f p).value ≡ (g p).value)

  pub demand-congr : (n c : ℕ) (f g : ℕ → Chunk) → SameSlots f g → demand n f c ≡ demand n g c
  unfolding demand chunk_load slot_load
  demand-congr n c f g same = sum_below-congr n (chunk_load n f c) (chunk_load n g c) (λ p l.
      sum_below-congr max_size (slot_load n f c p) (slot_load n g c p)
        (λ id k. rw ((same p).0, (same p).1)))

  -- Two tables that differ in one slot.
  pub demand-replace :
      (n c p id : ℕ) (f g : ℕ → Chunk)
      → p < n
      → id < max_size
      → ((q : ℕ) → q < n → q ≢ p → f q ≡ g q)
      → ((j : ℕ) → j ≢ id → (f p).tags j ≡ (g p).tags j)
      → ((j : ℕ) → j ≢ id → (f p).value j ≡ (g p).value j)
      → demand n g c + slot_load n f c p id ≡ demand n f c + slot_load n g c p id
  unfolding demand chunk_load slot_load
  demand-replace n c p id f g l k others tags values =
      let inner =
        sum_below-replace max_size id (slot_load n f c p) (slot_load n g c p) k
          (λ j _ ne. rw (tags j ne, values j ne)) in
      let outer = sum_below-replace n p (chunk_load n f c) (chunk_load n g c) l (λ q m ne.
        ap
          (λ (x : Chunk).
            sum_below max_size
              (λ i. if x.tags i == 0 then 0 else count c (key_walk crc n (x.value i).first q)))
          (others q m ne)) in
      omega (arith, inner, outer)

  pub slot_load-Stored :
      (t : PetHash) (key p id c : ℕ)
      → Stored t key p id
      → slot_load t.chunk_num t.chunk_table c p id ≡ count c (key_walk crc t.chunk_num key p)
  unfolding slot_load
  slot_load-Stored t key p id c s =
      rw (ne→== ((t.chunk_table p).tags id) 0 s.busy)
        (ap (λ (k : ℕ). count c (key_walk crc t.chunk_num k p)) s.named)

  -- A chunk that the walk to a stored entry passes has at least that much demand.
  pub load-le-demand :
      (t : PetHash) (key p id c : ℕ)
      → Stored t key p id
      → count c (key_walk crc t.chunk_num key p) ≤ demand t.chunk_num t.chunk_table c
  unfolding demand chunk_load
  load-le-demand t key p id c s =
      let n = t.chunk_num in
      omega (
        arith,
        slot_load-Stored t key p id c s,
        le-sum_below max_size id (slot_load n t.chunk_table c p) s.slot,
        le-sum_below n p (chunk_load n t.chunk_table c) s.chunk,
      )
