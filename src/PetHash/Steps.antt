-- ===== src/PetHash/Steps.antt =====
-- The branches of one round of `Insert`, for a key that its chunk does not hold.
use pet_ps.Common.{ℕ, suc, ◌+◌, ◌%◌, ◌^◌, Bool, true, false, ltb, ◌≡◌, refl, Option, some, none}
use pet_ps.Common.Outcome.{done, fatal, ◌>>=◌}
use pet_ps.PetHash.Chunk
use pet_ps.PetHash.Chunk.{Chunk, max_size}
use pet_ps.PetHash.Table.{PetHash, tag_of, step_of, next_pos, full}
use pet_ps.PetHash.Delete.{set_chunk, delete}
use pet_ps.PetHash.Insert.{CheckFunc, expire, insert_from}
use pet_ps.PetHash.Bump.{moved}

module _ (crc : ℕ → ℕ) (key value : ℕ) (check_func : Option CheckFunc) (force_insert : Bool)
    (left i pos : ℕ) (t₀ t : PetHash) (swept : expire crc check_func t₀ pos ≡ done t)
    (miss : Chunk.find (t.chunk_table pos) key (tag_of crc key) ≡ none) where
  pub step_room :
      {c : Chunk} {id : ℕ}
      → ltb (t.chunk_table pos).size max_size ≡ true
      → Chunk.insert (t.chunk_table pos) key value (tag_of crc key) ≡ some (c, id)
      → insert_from crc key value check_func force_insert (suc left) i t₀ pos
        ≡ done (record (set_chunk t pos c) { size = (t.size + 1) % 2 ^ 64 }, pos, id)
  unfolding insert_from
  step_room room run = rw (insert_from, ◌>>=◌, swept, miss, room, run) refl

  module _ (no_room : ltb (t.chunk_table pos).size max_size ≡ false) where
    pub step_on :
        full t ≡ false
        → insert_from crc key value check_func force_insert (suc left) i t₀ pos
          ≡ insert_from crc key value check_func force_insert left
              (i + 1)
              (moved t pos)
              (next_pos t.chunk_num (step_of crc key) pos)
    unfolding insert_from
    step_on not_full = rw (insert_from, ◌>>=◌, swept, miss, no_room, not_full) refl

    pub step_stop :
        full t ≡ true
        → force_insert ≡ false
        → insert_from crc key value check_func force_insert (suc left) i t₀ pos ≡ fatal
    unfolding insert_from
    step_stop is_full calm = rw (insert_from, ◌>>=◌, swept, miss, no_room, is_full, calm) refl

    pub step_victim :
        {t' : PetHash}
        → full t ≡ true
        → force_insert ≡ true
        → delete crc t ((t.chunk_table pos).value ((tag_of crc key + i) % max_size)).first ≡ done t'
        → insert_from crc key value check_func force_insert (suc left) i t₀ pos
          ≡ insert_from crc key value check_func force_insert left (i + 1) t' pos
    unfolding insert_from
    step_victim is_full force run =
        rw (insert_from, ◌>>=◌, swept, miss, no_room, is_full, force, run) refl
