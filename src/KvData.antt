-- ===== src/KvData.antt =====
-- src/pet_kv/shm_common.h: `PetKVData`, an offset and an expiry time packed in 64 bits, with
-- the choice of its layout in the constructor of `PetMultiKV` (src/pet_kv/pet_kv.cc).
-- An offset of -1 is `none`; `1LL << b` and `>>` are powers of two.
pub mod Fields
use pet_ps.Common.{
  ℕ, zero, suc, ◌+◌, ◌-◌, ◌*◌, ◌/◌, ◌%◌, ◌^◌, bit_and, bit_or, Option, none, some, ltb, ◌==◌,
  if◌then◌else◌,
}

pub record Config : Type 0 where
  pub expire_reduct_bit : ℕ
  pub expire_reduct_mark : ℕ
  pub expire_bit : ℕ
  pub expire_mark : ℕ
  pub no_malloc_offset : ℕ

-- The constructor; `CHECK_GE(offset_bit, 32)` fails in `none`.
unfoldable pub config : ℕ → Option Config
config offset_bit =
    let expire_bit = 64 - offset_bit in
    let expire_reduct_bit = 32 - expire_bit in
    if ltb offset_bit 32
    then none
    else some (record {
      expire_reduct_bit = expire_reduct_bit;
      expire_reduct_mark = 2 ^ expire_reduct_bit - 1;
      expire_bit = expire_bit;
      expire_mark = 2 ^ expire_bit - 1;
      no_malloc_offset = 2 ^ offset_bit - 1;
    })

-- `kConfig` as the program starts, and the loop `for (int i = 36; i <= 64; ++i)`, with its rounds
-- left, that replaces it for a large shard. From 2 ^ 62 bytes on `1LL << i` would leave the range of
-- its type, so the rounds stop at 62.
abbrev pub default_offset_bit : ℕ
default_offset_bit = 48

unfoldable pub offset_bit_from : ℕ → ℕ → ℕ → ℕ
offset_bit_from zero i shard_memory = default_offset_bit
offset_bit_from (suc left) i shard_memory =
    let rest = offset_bit_from left (i + 1) shard_memory in
    if ltb shard_memory (2 ^ i) then i - 3 else rest

unfoldable pub choose_offset_bit : ℕ → ℕ
unfolding offset_bit_from
choose_offset_bit shard_memory =
    if ltb shard_memory (2 ^ 35) then default_offset_bit else offset_bit_from 27 36 shard_memory

module _ (c : Config) where
  open c use {expire_reduct_bit, expire_bit, expire_mark, no_malloc_offset}

  unfoldable pub shm_malloc_offset : ℕ → Option ℕ
  shm_malloc_offset data_value =
      let offset = data_value / 2 ^ expire_bit in
      if offset == no_malloc_offset then none else some (offset * 8 % 2 ^ 64)

  -- The operand of the shift in `SetShmMallocOffset`.
  unfoldable pub stored_offset : Option ℕ → ℕ
  stored_offset none = no_malloc_offset
  stored_offset (some offset) = offset / 8

  unfoldable pub set_shm_malloc_offset : ℕ → Option ℕ → ℕ
  unfolding stored_offset
  set_shm_malloc_offset data_value offset =
      bit_or (bit_and data_value expire_mark) (stored_offset offset * 2 ^ expire_bit % 2 ^ 64)

  unfoldable pub expire_timet : ℕ → ℕ
  expire_timet data_value = bit_and data_value expire_mark * 2 ^ expire_reduct_bit % 2 ^ 32
