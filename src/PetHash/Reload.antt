-- ===== src/PetHash/Reload.antt =====
-- `Reload`, the recovery of a table from its entries.
-- The threads share out the chunks; their increments commute and stop at 255, so one thread does the
-- same. `mallocSetValid` does not touch the table and is left out.
use pet_ps.Common.{
  ℕ, zero, suc, ◌+◌, ◌*◌, ◌%◌, Bool, true, false, ltb, ◌==◌, if◌then◌else◌, update, sum_below,
}
use pet_ps.Common.Outcome.{Outcome, done, spin, ◌>>=◌}
use pet_ps.PetHash.Chunk
use pet_ps.PetHash.Chunk.{Item, Chunk, max_size, empty_key}
use pet_ps.PetHash.Table.{PetHash, tag_of, step_of, home_chunk, next_pos, over_fall_chunk_num}
use pet_ps.PetHash.Delete.{set_chunk}

-- The second pass: the walk to an entry's chunk raises the counters on the way.
unfoldable pub mark_path : PetHash → ℕ → ℕ → ℕ → ℕ → Outcome PetHash
mark_path t step chunk_id zero pos = spin
mark_path t step chunk_id (suc left) pos =
    let t' = set_chunk t pos (Chunk.inc_overflow (t.chunk_table pos)) in
    elim (pos == chunk_id) [
      | true ↦ done t
      | false ↦ mark_path t' step chunk_id left (next_pos t.chunk_num step pos)
    ]

module _ (crc : ℕ → ℕ) where
  -- One slot of the first pass: it is counted, and its tag corrected.
  unfoldable pub repair_slot : Chunk → ℕ → Chunk
  repair_slot c id =
      let sign = tag_of crc (c.value id).first in
      if (c.value id).first == empty_key then c else record c {
        size = (c.size + 1) % 256;
        tags = if c.tags id == sign then c.tags else update c.tags id sign;
      }

  -- The first slots of a chunk.
  unfoldable pub repair_slots : Chunk → ℕ → Chunk
  repair_slots c zero = c
  repair_slots c (suc id) = repair_slot (repair_slots c id) id

  unfoldable pub repair_chunk : Chunk → Chunk
  repair_chunk c = repair_slots (record c { size = 0; overflow_count = 0 }) max_size

  -- `count_size`
  unfoldable pub count_entries : Chunk → ℕ
  count_entries c = sum_below max_size (λ id. if (c.value id).first == empty_key then 0 else 1)

  unfoldable pub mark_slot : PetHash → ℕ → ℕ → Outcome PetHash
  mark_slot t chunk_id id =
      let key = ((t.chunk_table chunk_id).value id).first in
      elim (Chunk.in_use (t.chunk_table chunk_id) id) [
        | false ↦ done t
        | true ↦ mark_path t (step_of crc key) chunk_id t.chunk_num (home_chunk t.chunk_num key)
      ]

  -- The first slots of a chunk, and the first chunks.
  unfoldable pub mark_slots : PetHash → ℕ → ℕ → Outcome PetHash
  mark_slots t chunk_id zero = done t
  mark_slots t chunk_id (suc id) = mark_slots t chunk_id id >>= λ t'. mark_slot t' chunk_id id

  unfoldable pub mark_chunks : PetHash → ℕ → Outcome PetHash
  mark_chunks t zero = done t
  mark_chunks t (suc p) = mark_chunks t p >>= λ t'. mark_slots t' p max_size

  -- The table after the first pass.
  unfoldable pub repaired : (ℕ → ℕ) → PetHash → ℕ → Bool → PetHash
  repaired scale t capacity ignore_load_factor =
      let capacity' = if ignore_load_factor then capacity else scale capacity in
      let chunk_num = over_fall_chunk_num capacity' in
      record {
        capacity = chunk_num * max_size;
        chunk_num = chunk_num;
        size = sum_below chunk_num (λ p. count_entries (t.chunk_table p));
        chunk_table =
            λ p. if ltb p chunk_num then repair_chunk (t.chunk_table p) else t.chunk_table p;
      }

  unfoldable pub reload : (ℕ → ℕ) → PetHash → ℕ → Bool → Outcome PetHash
  reload scale t capacity ignore_load_factor =
      let t' = repaired scale t capacity ignore_load_factor in mark_chunks t' t'.chunk_num
