-- ===== src/PetHash/Table.antt =====
-- `PetHash`: its fields, the hash and the probe sequence, its size and its initialisation.
-- The instruction `_mm_crc32_u64(0, key)` is the parameter `crc`. A chunk index stays far below
-- 2 ^ 64, so the sum of an index and a step does not wrap.
use pet_ps.Common.{
  ℕ, zero, suc, ◌+◌, ◌-◌, ◌*◌, ◌/◌, ◌%◌, ◌^◌, bit_and, bit_or, Bool, false, ltb, leb, if◌then◌else◌,
}
use pet_ps.PetHash.Chunk
use pet_ps.PetHash.Chunk.{Item, Chunk, max_size}

pub record PetHash : Type 0 where
  pub capacity : ℕ
  pub chunk_num : ℕ
  pub size : ℕ
  pub chunk_table : ℕ → Chunk

abbrev pub max_load_factor : ℕ
max_load_factor = 90

unfoldable pub hash : ℕ → ℕ
hash key = key * 0xc6a4a7935bd1e995 % 2 ^ 64

unfoldable pub probe_delta : ℕ → ℕ
probe_delta key = bit_or (key * 2) 1

module _ (crc : ℕ → ℕ) where
  unfoldable pub sign : ℕ → ℕ
  sign key = bit_and (bit_or (crc key / 2 ^ 24) 0x80) 0xff

  -- What the operations compute of a key: its tag and its probe step.
  unfoldable pub tag_of : ℕ → ℕ
  unfolding sign hash
  tag_of key = sign (hash key)

  unfoldable pub step_of : ℕ → ℕ
  unfolding tag_of probe_delta
  step_of key = probe_delta (tag_of key)

-- `HomeChunk`, and the step `pos = (pos + step) & (chunk_num_ - 1)`.
unfoldable pub home_chunk : ℕ → ℕ → ℕ
unfolding hash
home_chunk chunk_num key = bit_and (hash key) (chunk_num - 1)

unfoldable pub next_pos : ℕ → ℕ → ℕ → ℕ
next_pos chunk_num step pos = bit_and (pos + step) (chunk_num - 1)

unfoldable pub full : PetHash → Bool
full t = leb (t.capacity * max_load_factor) (t.size * 100)

-- `while (new_size < size) new_size <<= 1;`, with the rounds left.
unfoldable pub next2_power_from : ℕ → ℕ → ℕ → ℕ
next2_power_from zero new_size size = new_size
next2_power_from (suc left) new_size size =
    let rest = next2_power_from left (new_size * 2) size in
    if ltb new_size size then rest else new_size

unfoldable pub next2_power : ℕ → ℕ
unfolding next2_power_from
next2_power size = next2_power_from 64 1 size

unfoldable pub over_fall_chunk_num : ℕ → ℕ
unfolding next2_power
over_fall_chunk_num capacity = next2_power ((capacity + max_size - 1) / max_size)

-- `sizeof(PetHash)`, padded to a cache line, and `sizeof(ChunkT)`: the header of 64 bytes and 14
-- entries of 16, aligned to 64.
abbrev pub size_of_pet_hash : ℕ
size_of_pet_hash = 64

-- `capacity /= kMaxLoadFactor / 100.0` divides in floating point: the parameter `scale`.
module _ (scale : ℕ → ℕ) (size_of_chunk : ℕ) where
  unfoldable pub memory_size : ℕ → Bool → ℕ
  unfolding over_fall_chunk_num
  memory_size capacity ignore_load_factor =
      let capacity' = if ignore_load_factor then capacity else scale capacity in
      size_of_pet_hash + over_fall_chunk_num capacity' * size_of_chunk

-- A chunk of zero bytes.
abbrev pub zero_chunk : Chunk
zero_chunk = record {
  tags = λ _. 0;
  size = 0;
  padding = 0;
  overflow_count = 0;
  is_migrating = false;
  value = λ _. record { first = 0; second = 0 };
}

unfoldable pub initialize : (ℕ → ℕ) → PetHash → ℕ → Bool → PetHash
unfolding over_fall_chunk_num Chunk.initialize
initialize scale t capacity ignore_load_factor =
    let capacity' = if ignore_load_factor then capacity else scale capacity in
    let chunk_num = over_fall_chunk_num capacity' in
    record {
      capacity = chunk_num * max_size;
      chunk_num = chunk_num;
      size = 0;
      chunk_table = λ i. if ltb i chunk_num then Chunk.initialize zero_chunk else t.chunk_table i;
    }

-- `IndexInUse` and `GetById`.
unfoldable pub index_in_use : PetHash → ℕ → Bool
index_in_use t pos =
    if leb t.capacity pos
    then false
    else Chunk.in_use (t.chunk_table (pos / max_size)) (pos % max_size)

unfoldable pub get_by_id : PetHash → ℕ → Item
get_by_id t pos = (t.chunk_table (pos / max_size)).value (pos % max_size)
