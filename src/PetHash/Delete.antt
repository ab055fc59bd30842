-- ===== src/PetHash/Delete.antt =====
-- `Delete`.
use pet_ps.Common.{ℕ, zero, suc, ◌+◌, ◌-◌, ◌%◌, ◌^◌, true, false, ◌==◌, update}
use pet_ps.Common.Outcome.{Outcome, done, spin, ◌>>=◌}
use pet_ps.PetHash.Chunk
use pet_ps.PetHash.Chunk.{Chunk}
use pet_ps.PetHash.Table.{PetHash, step_of, home_chunk, next_pos}
use pet_ps.PetHash.Search.{at, missing, retry, get_internal}

abbrev pub set_chunk : PetHash → ℕ → Chunk → PetHash
set_chunk t pos c = record t { chunk_table = update t.chunk_table pos c }

-- `while (pos != chunk_id) { chunk_table_[pos].DecOverflow(); pos = …; }`, with the rounds left.
unfoldable pub dec_path : PetHash → ℕ → ℕ → ℕ → ℕ → Outcome PetHash
dec_path t step chunk_id zero pos = spin
dec_path t step chunk_id (suc left) pos =
    let t' = set_chunk t pos (Chunk.dec_overflow (t.chunk_table pos)) in
    elim (pos == chunk_id) [
      | true ↦ done t
      | false ↦ dec_path t' step chunk_id left (next_pos t.chunk_num step pos)
    ]

module _ (crc : ℕ → ℕ) where
  -- `Delete` returns true on every path.
  unfoldable pub delete : PetHash → ℕ → Outcome PetHash
  delete t key = elim (get_internal crc t key) [
    | missing ↦ done t
    | retry ↦ spin
    | at chunk_id chunk_offset ↦ do
      t' ← dec_path t (step_of crc key) chunk_id t.chunk_num (home_chunk t.chunk_num key)
      let c = Chunk.delete (t'.chunk_table chunk_id) chunk_offset
      done (record (set_chunk t' chunk_id c) { size = (t'.size + (2 ^ 64 - 1)) % 2 ^ 64 })
  ]
