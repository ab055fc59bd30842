-- ===== src/PetHash/Insert.antt =====
-- `Insert` and `Set`. The call of `check_func` on a victim of eviction, whose result is not used, is left
-- out.
use pet_ps.Common.{
  ℕ, zero, suc, ◌+◌, ◌-◌, ◌%◌, ◌^◌, Bool, true, false, not, ◌&&◌, Option, none, some, ltb, leb,
  if◌then◌else◌, update,
}
use pet_ps.Common.Outcome.{Outcome, done, fatal, spin, ◌>>=◌}
use pet_ps.PetHash.Chunk
use pet_ps.PetHash.Chunk.{Chunk, Item, max_size}
use pet_ps.PetHash.Table.{PetHash, tag_of, step_of, home_chunk, next_pos, full}
use pet_ps.PetHash.Search.{at, missing, retry, get_internal}
use pet_ps.PetHash.Delete.{set_chunk, delete}

-- `CheckFuncT`; a null function is `none`.
abbrev pub CheckFunc : Type 0
CheckFunc = ℕ → ℕ → Bool → Bool

-- `val->second = value`
abbrev pub assign : PetHash → ℕ → ℕ → ℕ → PetHash
assign t pos id value =
    let c = t.chunk_table pos in
    set_chunk t pos
      (record c { value = update c.value id (record (c.value id) { second = value }) })

module _ (crc : ℕ → ℕ) where
  -- The loop that deletes what `check_func` lets expire, with the slots left.
  unfoldable pub expire_from : CheckFunc → PetHash → ℕ → ℕ → ℕ → Outcome PetHash
  expire_from check_func t pos zero id = done t
  expire_from check_func t pos (suc left) id =
      let c = t.chunk_table pos in
      let it = c.value id in
      let expired = Chunk.in_use c id && not (check_func it.first it.second false) in
      (if expired then delete crc t it.first else done t) >>= λ t'.
      expire_from check_func t' pos left (id + 1)

  unfoldable pub expire : Option CheckFunc → PetHash → ℕ → Outcome PetHash
  expire none t pos = done t
  expire (some check_func) t pos =
      if leb (max_size - 2) (t.chunk_table pos).size
      then expire_from check_func t pos max_size 0
      else done t

  module _ (key value : ℕ) (check_func : Option CheckFunc) (force_insert : Bool) where
    -- The loop over the chunks, with its rounds left, the index of the round and the chunk's
    -- position. The result points at the slot of the value.
    unfoldable pub insert_from : ℕ → ℕ → PetHash → ℕ → Outcome (PetHash × ℕ × ℕ)
    insert_from zero i t₀ pos = fatal
    insert_from (suc left) i t₀ pos = expire check_func t₀ pos >>= λ t.
        let chunk = t.chunk_table pos in
        let sign = tag_of crc key in
        let victim = (chunk.value ((sign + i) % max_size)).first in
        let moved = set_chunk t pos (Chunk.inc_overflow chunk) in
        elim (Chunk.find chunk key sign) [
          | some id ↦ done (assign t pos id value, pos, id)
          | none ↦ elim (ltb chunk.size max_size) [
            | true ↦ elim (Chunk.insert chunk key value sign) [
              | none ↦ fatal
              | some (chunk', id) ↦
                  done (record (set_chunk t pos chunk') { size = (t.size + 1) % 2 ^ 64 }, pos, id)
            ]
            | false ↦ elim (full t) [
              | true ↦ elim force_insert [
                | false ↦ fatal
                | true ↦ delete crc t victim >>= λ t'. insert_from left (i + 1) t' pos
              ]
              | false ↦ insert_from left (i + 1) moved (next_pos t.chunk_num (step_of crc key) pos)
            ]
          ]
        ]

    unfoldable pub insert : PetHash → Outcome (PetHash × ℕ × ℕ)
    insert t = insert_from t.chunk_num 0 t (home_chunk t.chunk_num key)

    unfoldable pub set : PetHash → Outcome (PetHash × ℕ × ℕ)
    set t = elim (get_internal crc t key) [
      | at pos id ↦ done (assign t pos id value, pos, id)
      | missing ↦ insert t
      | retry ↦ spin
    ]
