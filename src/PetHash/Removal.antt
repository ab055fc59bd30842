-- ===== src/PetHash/Removal.antt =====
-- `Delete` in a well-formed table.
use pet_ps.Common.{
  ℕ, zero, suc, ◌+◌, ◌-◌, ◌^◌, ◌%◌, ◌≤◌, ◌==◌, if◌then◌else◌, ◌≡◌, refl, ap, ◌∙◌, arith, Bool-cases,
  inl, inr, ◌⊎◌, count, ==→eq, ==→ne, update, ltb, ltb→lt,
}
use pet_ps.Common.Outcome.{done, Returns}
use pet_ps.PetHash.Chunk
use pet_ps.PetHash.Chunk.{Item, Chunk, max_size}
use pet_ps.PetHash.Table.{PetHash, step_of, home_chunk, next_pos}
use pet_ps.PetHash.Delete.{set_chunk, dec_path, delete}
use pet_ps.PetHash.Walk.{walk, Arrives, key_walk, walk-outside}
use mathlib.Core.Path.{fun_ext}
use pet_ps.PetHash.Invariant.{Stored, Inv, load-le-demand}
use pet_ps.PetHash.Lookup.{get_internal-Stored}

-- `j` decrements of a counter.
abbrev pub lower : ℕ → ℕ → ℕ
lower o j = if o == 255 then 255 else o - j

abbrev pub lowered : Chunk → ℕ → Chunk
lowered c j = record c { overflow_count = lower c.overflow_count j }

pub lowered_zero : (c : Chunk) → c ≡ lowered c 0
lowered_zero c = ap (λ (o : ℕ). record c { overflow_count = o }) (ground arith)

-- What the counters must allow for a list of decrements.
abbrev Allows : Chunk → ℕ → Type 0
Allows c j =
    (c.overflow_count ≡ 255) ⊎ ((j ≤ c.overflow_count) × (c.overflow_count ≤ 255)) ⊎ (j ≡ 0)

Allows-step : (c : Chunk) (k : ℕ) → Allows c (1 + k) → Allows (Chunk.dec_overflow c) k
unfolding Chunk.dec_overflow
Allows-step c k (inl h) = inl (ground arith)
Allows-step c k (inr (inl h)) = inr (inl (ground arith))
Allows-step c k (inr (inr h)) = absurd (omega arith)

lowered_step :
    (c : Chunk) (k : ℕ) → Allows c (1 + k) → lowered (Chunk.dec_overflow c) k ≡ lowered c (1 + k)
unfolding Chunk.dec_overflow
lowered_step c k (inl h) = ap (λ (o : ℕ). record c { overflow_count = o }) (ground arith)
lowered_step c k (inr (inl h)) = ap (λ (o : ℕ). record c { overflow_count = o }) (ground arith)
lowered_step c k (inr (inr h)) = absurd (omega arith)

-- One round: the chunk at `pos` is decremented, and the others stay.
lowered_round :
    (table : ℕ → Chunk) (pos c k : ℕ)
    → Allows (table c) ((if pos == c then 1 else 0) + k)
    → Allows (update table pos (Chunk.dec_overflow (table pos)) c) k
      × (lowered (update table pos (Chunk.dec_overflow (table pos)) c) k
          ≡ lowered (table c) ((if pos == c then 1 else 0) + k))
lowered_round table pos c k h = elim (Bool-cases (pos == c)) [
  | inl same ↦
      let e : pos ≡ c = ==→eq pos c same in
      let h' : Allows (table c) (1 + k) = rw same at h in
      rw (same, e) (Allows-step (table c) k h', lowered_step (table c) k h')
  | inr apart ↦
      let plain : 0 + k ≡ k = omega arith in
      let h' : Allows (table c) k = rw (apart, plain) at h in rw (apart, plain) (h', refl)
]

-- The loop of `Delete` lowers each counter by the number of times that the walk passes its chunk.
pub dec_path-lowered :
    (step target left pos : ℕ) (t : PetHash)
    → Arrives t.chunk_num step target left pos
    → ((c : ℕ) → Allows (t.chunk_table c) (count c (walk t.chunk_num step target left pos)))
    → Returns (dec_path t step target left pos) (λ t'.
      (t'.capacity ≡ t.capacity)
      × (t'.chunk_num ≡ t.chunk_num)
      × (t'.size ≡ t.size)
      × ((c : ℕ)
          → t'.chunk_table c
            ≡ lowered (t.chunk_table c) (count c (walk t.chunk_num step target left pos))))
unfolding dec_path walk count
dec_path-lowered step target zero pos t arrives allows = absurd arrives
dec_path-lowered step target (suc left) pos t arrives allows = elim (Bool-cases (pos == target)) [
  | inl hit ↦
      (t, rw (hit, dec_path), (refl, refl, refl, λ c. rw hit (lowered_zero (t.chunk_table c))))
  | inr miss ↦
      let t₁ = set_chunk t pos (Chunk.dec_overflow (t.chunk_table pos)) in
      let next = next_pos t.chunk_num step pos in
      let round = λ (c : ℕ).
        lowered_round t.chunk_table pos c (count c (walk t.chunk_num step target left next))
          (rw miss at (allows c)) in
      let (t', run, (cap, num, size, chunks)) =
        dec_path-lowered step target left next t₁ (arrives (==→ne pos target miss))
          (λ c. (round c).0) in
      (t', rw (miss, dec_path) run, (cap, num, size, λ c. rw miss (chunks c ∙ (round c).1)))
]

-- The table with every counter lowered by `w` and slot `id` of chunk `p` emptied.
abbrev pub all_lowered : (ℕ → Chunk) → (ℕ → ℕ) → ℕ → Chunk
all_lowered table w c = lowered (table c) (w c)

abbrev pub erased : (ℕ → Chunk) → (ℕ → ℕ) → ℕ → ℕ → ℕ → Chunk
erased table w p id = update (all_lowered table w) p (Chunk.delete (all_lowered table w p) id)

module _ (crc : ℕ → ℕ) where
  abbrev pub removed : PetHash → ℕ → ℕ → ℕ → PetHash
  removed t key p id = record t {
    size = (t.size + (2 ^ 64 - 1)) % 2 ^ 64;
    chunk_table = erased t.chunk_table (λ c. count c (key_walk crc t.chunk_num key p)) p id;
  }

  module _ {t : PetHash} {pending : ℕ → ℕ} (v : Inv crc t pending) where
    pub allowed :
        (key p id c : ℕ)
        → Stored t key p id
        → Allows (t.chunk_table c) (count c (key_walk crc t.chunk_num key p))
    allowed key p id c s = elim (Bool-cases (ltb c t.chunk_num)) [
      | inl e ↦
          let l = ltb→lt c t.chunk_num e in
          elim (v.covered c l) [
            | inl full ↦ inl full
            | inr enough ↦ inr (inl (omega (arith, load-le-demand crc t key p id c s), v.bytes c l))
          ]
      | inr e ↦ inr (inr (walk-outside crc t.chunk_num v.width key p c v.power (ground arith)))
    ]

    -- `Delete` of a stored key empties its slot and lowers the counters on the way to it.
    pub delete-removed :
        (key p id : ℕ) → Stored t key p id → delete crc t key ≡ done (removed t key p id)
    unfolding delete
    delete-removed key p id s =
        let (t', run, (cap, num, size, chunks)) =
          dec_path-lowered (step_of crc key) p t.chunk_num (home_chunk t.chunk_num key) t
            (v.placed key p id s) (λ c. allowed key p id c s) in
        let w = λ (c : ℕ). count c (key_walk crc t.chunk_num key p) in
        let table : t'.chunk_table ≡ all_lowered t.chunk_table w = fun_ext chunks in
        rw (get_internal-Stored crc v key p id s, delete, run, cap, num, size, table) refl
