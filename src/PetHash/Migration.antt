-- ===== src/PetHash/Migration.antt =====
-- `HotnessAwareMigration`, which moves hot keys to their home chunks, with `PrevChunk`, `NextChunk` and
-- `ChainTraverseReverse`. The victim's slot is 0.
use pet_ps.Common.{
  ℕ, zero, suc, ◌+◌, ◌-◌, ◌%◌, ◌^◌, Bool, true, false, none, some, List, [], ◌∷◌, ◌==◌,
  if◌then◌else◌,
}
use pet_ps.Common.Outcome.{Outcome, done, fatal, spin, ◌>>=◌}
use pet_ps.PetHash.Chunk
use pet_ps.PetHash.Chunk.{Chunk, Item, max_size}
use pet_ps.PetHash.Table.{PetHash, tag_of, step_of, home_chunk, next_pos, full}
use pet_ps.PetHash.Search.{at, missing, retry, get_internal}
use pet_ps.PetHash.Delete.{set_chunk}

-- The positions that `NextChunk` and `PrevChunk` return, in the wrap-around of `size_t`.
unfoldable pub next_chunk : ℕ → ℕ → ℕ → ℕ
next_chunk chunk_num step pos = (pos + step + chunk_num) % 2 ^ 64 % chunk_num

unfoldable pub prev_chunk : ℕ → ℕ → ℕ → ℕ
prev_chunk chunk_num step pos = (pos + (2 ^ 64 - step) + chunk_num) % 2 ^ 64 % chunk_num

-- `ChainTraverseReverse` from `pos` back to `start`, with the rounds left.
unfoldable pub traverse_reverse : (ℕ → Chunk → Chunk) → ℕ → ℕ → ℕ → PetHash → ℕ → Outcome PetHash
traverse_reverse func start step zero t pos = spin
traverse_reverse func start step (suc left) t pos =
    let t' = set_chunk t pos (func pos (t.chunk_table pos)) in
    let rest = traverse_reverse func start step left t' (prev_chunk t.chunk_num step pos) in
    if pos == start then done t' else rest

abbrev pub set_migrating : Bool → ℕ → Chunk → Chunk
set_migrating flag pos c = record c { is_migrating = flag }

-- The last function of case 2.
abbrev pub settle : ℕ → ℕ → Chunk → Chunk
settle current pos c =
    let c' = record c { is_migrating = false } in
    if pos == current then c' else Chunk.dec_overflow c'

module _ (crc : ℕ → ℕ) where
  -- Case 1: the home chunk has an empty slot.
  unfoldable pub migrate_to_empty : PetHash → ℕ → ℕ → ℕ → ℕ → ℕ → Outcome PetHash
  migrate_to_empty t key value home current id =
      elim (Chunk.insert (t.chunk_table home) key value (tag_of crc key)) [
        | none ↦ fatal
        | some (chunk, slot) ↦
            let t' = set_chunk t home chunk in
            let t'' =
              set_chunk t' current
                (Chunk.dec_overflow (Chunk.delete (t'.chunk_table current) id)) in
            traverse_reverse (set_migrating false) home (step_of crc key) t.chunk_num t'' current
      ]

  -- The loop of step 2.2, with its rounds left: the victim goes to the next chunk of its walk with room.
  unfoldable pub move_victim : ℕ → ℕ → ℕ → PetHash → ℕ → ℕ → Outcome PetHash
  move_victim key value home t zero pos = fatal
  move_victim key value home t (suc left) pos =
      let chunk = t.chunk_table pos in
      let moved = set_chunk t pos (Chunk.inc_overflow chunk) in
      let rest =
        move_victim key value home moved left (next_pos t.chunk_num (step_of crc key) pos) in
      if chunk.size == max_size
      then if full t then fatal else rest
      else elim (Chunk.insert chunk key value (tag_of crc key)) [
        | none ↦ fatal
        | some (chunk', slot) ↦ if home == pos then fatal else done (set_chunk t pos chunk')
      ]

  -- Step 2.3: the key takes the victim's slot.
  unfoldable pub replace_victim : PetHash → ℕ → ℕ → ℕ → ℕ → ℕ → Outcome PetHash
  replace_victim t key value home current id =
      let item : Item = record { first = key; second = value } in
      let home' = Chunk.set (Chunk.inc_overflow (t.chunk_table home)) 0 (tag_of crc key) item in
      let t' = set_chunk t home home' in
      let t'' = set_chunk t' current (Chunk.delete (t'.chunk_table current) id) in
      traverse_reverse (settle current) home (step_of crc key) t.chunk_num t'' current

  unfoldable pub migrate_by_victim : PetHash → ℕ → ℕ → ℕ → ℕ → ℕ → Outcome PetHash
  migrate_by_victim t key value home current id =
      let victim = (t.chunk_table home).value 0 in
      let victim_pos = next_pos t.chunk_num (step_of crc victim.first) home in
      if Chunk.in_use (t.chunk_table home) 0
      then (move_victim victim.first victim.second home t t.chunk_num victim_pos >>= λ t'.
          replace_victim t' key value home current id)
      else fatal

  -- A hot key that is not in its home chunk.
  unfoldable pub migrate_found : PetHash → ℕ → ℕ → ℕ → ℕ → Outcome PetHash
  migrate_found t key home current id =
      let value = ((t.chunk_table current).value id).second in
      traverse_reverse (set_migrating true) home (step_of crc key) t.chunk_num t current >>= λ t'.
      if (t'.chunk_table home).size == max_size
      then migrate_by_victim t' key value home current id
      else migrate_to_empty t' key value home current id

  unfoldable pub migrate_key : PetHash → ℕ → Outcome PetHash
  migrate_key t key =
      let home = home_chunk t.chunk_num key in
      elim (Chunk.find (t.chunk_table home) key (tag_of crc key)) [
        | some id ↦ done t
        | none ↦ elim (get_internal crc t key) [
          | missing ↦ fatal
          | retry ↦ spin
          | at current id ↦ migrate_found t key home current id
        ]
      ]

  unfoldable pub hotness_aware_migration : PetHash → List ℕ → Outcome PetHash
  hotness_aware_migration t [] = done t
  hotness_aware_migration t (key ∷ keys) =
      migrate_key t key >>= λ t'. hotness_aware_migration t' keys
