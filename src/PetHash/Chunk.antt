-- ===== src/PetHash/Chunk.antt =====
-- `EntryT` and `F14Chunk`: 14 slots with their tags.
-- The arrays are functions of the slot. Locks, prefetches and cache-line flushes have no effect on
-- these values and are left out. `first == -1` is `empty_key`.
use pet_ps.Common.{
  ℕ, zero, suc, ◌+◌, ◌-◌, ◌%◌, ◌^◌, bit_and, Bool, not, Option, none, some, ltb, ◌==◌,
  if◌then◌else◌, update, ◌&&◌,
}
use pet_ps.PetHash.Mask.{has_next, next, first_where}

pub record Item : Type 0 where
  pub first : ℕ
  pub second : ℕ

abbrev pub max_size : ℕ
max_size = 14

abbrev pub full_mask : ℕ
full_mask = 2 ^ max_size - 1

abbrev pub empty_key : ℕ
empty_key = 2 ^ 64 - 1

-- `padding` is the byte between `size_` and the lock, which the 16-byte load of `MatchTag` reads.
pub record Chunk : Type 0 where
  pub tags : ℕ → ℕ
  pub size : ℕ
  pub padding : ℕ
  pub overflow_count : ℕ
  pub is_migrating : Bool
  pub value : ℕ → Item

-- The 16 bytes from `tags_[0]` on.
unfoldable pub loaded : Chunk → ℕ → ℕ
loaded c i = if ltb i max_size then c.tags i else if i == max_size then c.size else c.padding

-- `_mm_movemask_epi8` of the comparison of the first `n` bytes with `tag`.
unfoldable pub movemask : (ℕ → ℕ) → ℕ → ℕ → ℕ
movemask bytes tag zero = 0
movemask bytes tag (suc i) = movemask bytes tag i + (if bytes i == tag then 2 ^ i else 0)

unfoldable pub match_tag : Chunk → ℕ → ℕ
unfolding movemask loaded
match_tag c tag = bit_and (movemask (loaded c) tag 16) full_mask

-- `Find`; -1 is `none`.
unfoldable pub find : Chunk → ℕ → ℕ → Option ℕ
unfolding match_tag first_where
find c key tag = first_where (λ id. key == (c.value id).first) max_size (match_tag c tag)

unfoldable pub set : Chunk → ℕ → ℕ → Item → Chunk
set c i tag val = record c { tags = update c.tags i tag; value = update c.value i val }

-- `none` is a failed CHECK. The second part is the slot of the pointer that is returned.
unfoldable pub insert : Chunk → ℕ → ℕ → ℕ → Option (Chunk × ℕ)
unfolding match_tag has_next next set
insert c key value sign =
    let c' = record c { size = (c.size + 1) % 256 } in
    let it = match_tag c' 0 in
    let id = (next it).0 in
    let item : Item = record { first = key; second = value } in
    if ltb c.size max_size && has_next it then some (set c' id sign item, id) else none

unfoldable pub inc_overflow : Chunk → Chunk
inc_overflow c = record c {
  overflow_count = if c.overflow_count == 255 then 255 else (c.overflow_count + 1) % 256;
}

-- On a `uint8_t`, `--` at 0 gives 255.
unfoldable pub dec_overflow : Chunk → Chunk
dec_overflow c = record c {
  overflow_count = if c.overflow_count == 255 then 255 else (c.overflow_count + 255) % 256;
}

unfoldable pub delete : Chunk → ℕ → Chunk
delete c i = record c {
  tags = update c.tags i 0;
  value = update c.value i (record (c.value i) { first = empty_key });
  size = (c.size + 255) % 256;
}

abbrev pub in_use : Chunk → ℕ → Bool
in_use c i = not (c.tags i == 0)

-- `value_[i].first = -1` for each slot.
unfoldable pub initialize : Chunk → Chunk
initialize c = record c {
  value = λ i. if ltb i max_size then record (c.value i) { first = empty_key } else c.value i;
}
