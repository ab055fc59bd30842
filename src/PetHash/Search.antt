-- ===== src/PetHash/Search.antt =====
-- `GetInternal` and the lookups over it.
use pet_ps.Common.{
  ℕ, zero, suc, ◌+◌, ◌*◌, Bool, true, false, ◌||◌, Option, none, some, ◌==◌, if◌then◌else◌,
}
use pet_ps.Common.Outcome.{Outcome, done, spin}
use pet_ps.PetHash.Chunk
use pet_ps.PetHash.Chunk.{max_size}
use pet_ps.PetHash.Table.{PetHash, tag_of, step_of, home_chunk, next_pos}

-- A pass ends at a chunk and a slot, with no entry, or at `goto RETRY`.
pub data Found : Type 0 where
  at : ℕ → ℕ → Found
  missing : Found
  retry : Found

module _ (crc : ℕ → ℕ) where
  -- The loop over the chunks, with its rounds left.
  unfoldable pub search_from : PetHash → ℕ → ℕ → ℕ → Bool → Found
  search_from t key zero pos touched = if touched then retry else missing
  search_from t key (suc left) pos touched =
      let chunk = t.chunk_table pos in
      let touched' = touched || chunk.is_migrating in
      let rest = search_from t key left (next_pos t.chunk_num (step_of crc key) pos) touched' in
      elim (Chunk.find chunk key (tag_of crc key)) [
        | some id ↦ at pos id
        | none ↦ if chunk.overflow_count == 0 then (if touched' then retry else missing) else rest
      ]

  -- One pass of `GetInternal`.
  unfoldable pub get_internal : PetHash → ℕ → Found
  unfolding search_from
  get_internal t key = search_from t key t.chunk_num (home_chunk t.chunk_num key) false

  -- `Get`: the value, and whether the key exists. A pass that has to be repeated would read the same
  -- table again.
  unfoldable pub get : PetHash → ℕ → Outcome (ℕ × Bool)
  get t key = elim (get_internal t key) [
    | at pos id ↦ done (((t.chunk_table pos).value id).second, true)
    | missing ↦ done (0, false)
    | retry ↦ spin
  ]

  -- `Lookup`; -1 is `none`.
  unfoldable pub lookup : PetHash → ℕ → Outcome (Option ℕ)
  lookup t key = elim (get_internal t key) [
    | at pos id ↦ done (some (pos * max_size + id))
    | missing ↦ done none
    | retry ↦ spin
  ]
