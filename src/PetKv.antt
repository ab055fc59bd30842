-- ===== src/PetKv.antt =====
-- src/pet_kv/pet_kv.h and src/pet_kv/pet_kv.cc: `PetKV`, one shard of the store: an index from keys
-- to packed offsets, a pool for the values, and a recycler for the values that are replaced.
-- A pointer is its distance from the start of the pool's file, and a null pointer is `none`.
pub mod Start
pub mod Queue
pub mod Store
pub mod Written
pub mod Retire
pub mod Finish
pub mod Fresh
pub mod Writing
pub mod Update
use pet_ps.Common.{
  ℕ, zero, suc, ◌+◌, ◌*◌, ◌%◌, ◌^◌, Bool, true, false, Option, none, some, List, [], ◌∷◌, length,
  ◌==◌, if◌then◌else◌,
}
use pet_ps.Common.Bytes.{Memory, read_bytes, write_bytes}
use pet_ps.Common.Outcome.{Outcome, done, fatal, spin, ◌>>=◌}
use pet_ps.KvData.{Config, shm_malloc_offset, set_shm_malloc_offset, expire_timet}
use pet_ps.PetHash.Table.{PetHash}
use pet_ps.PetHash.Search.{at, missing, retry, get_internal}
use pet_ps.PetHash.Search
use pet_ps.PetHash.Insert.{insert, assign}
use pet_ps.MemoryPool.{MemoryPool}
use pet_ps.MemoryPool.Sized
use pet_ps.MemoryPool.Sized.{get_malloc_size, get_malloc_offset}
use pet_ps.Recycle.{EpochRecycle, recycle}

pub record PetKvReadData : Type 0 where
  pub expire_timet : ℕ
  pub value_data : Option ℕ
  pub size : ℕ

abbrev pub no_data : PetKvReadData
no_data = record { expire_timet = 0; value_data = none; size = 0 }

-- `pre_known_value_size == 0` says that sizes need not fit perfectly.
abbrev pub perfect_fit_mod : ℕ → Bool
perfect_fit_mod pre_known_value_size = if pre_known_value_size == 0 then false else true

-- The sizes that the constructor gives to the pool.
abbrev pub slab_sizes : ℕ → List ℕ
slab_sizes pre_known_value_size =
    if pre_known_value_size == 0
    then (8 + 32) ∷ (8 + 64) ∷ (8 + 128) ∷ (8 + 512) ∷ (8 + 1024) ∷ []
    else pre_known_value_size ∷ []

module _ (crc : ℕ → ℕ) (config : Config) (pre_known_value_size : ℕ) where
  abbrev pub free : MemoryPool → ℕ → MemoryPool × Bool
  free = Sized.free (perfect_fit_mod pre_known_value_size)

  -- `dict_`, the memory behind `shm_malloc_`, and `shm_recycle_`, which holds `shm_malloc_`.
  pub record PetKv : Type 0 where
    pub dict : PetHash
    pub memory : Memory
    pub recycler : EpochRecycle free

  -- `Get`, from what the index has.
  unfoldable pub read_data : PetKv → ℕ → Outcome PetKvReadData
  read_data kv cache = elim (shm_malloc_offset config cache) [
    | none ↦ fatal
    | some offset ↦ done (record {
      expire_timet = expire_timet config cache;
      value_data = some offset;
      size =
          if pre_known_value_size == 0
          then get_malloc_size false kv.recycler.malloc kv.memory offset
          else pre_known_value_size;
    })
  ]

  abbrev pub read_found : PetKv → ℕ × Bool → Outcome PetKvReadData
  read_found kv (cache, false) = done no_data
  read_found kv (cache, true) = read_data kv cache

  unfoldable pub get : PetKv → ℕ → Outcome PetKvReadData
  get kv key = Search.get crc kv.dict key >>= read_found kv

  -- `FREE_SHM(shm_malloc_->GetMallocData(…))`. The offset of -1 is no entry's, and `Free` of it fails
  -- the recycler's CHECK.
  unfoldable pub free_shm : PetKv → Option ℕ → Outcome PetKv
  free_shm kv none = fatal
  free_shm kv (some offset) =
      recycle free kv.recycler offset >>= λ r. done (record kv { recycler = r })

  abbrev pub same_offset : Option ℕ → Option ℕ → Bool
  same_offset none none = true
  same_offset (some a) (some b) = a == b
  same_offset _ _ = false

  -- The end of `Update`: the store of the new offset at `p_cache`, and its re-read.
  unfoldable pub store_offset : PetKv → ℕ → ℕ → ℕ → Outcome PetKv
  store_offset kv pos id new_cache =
      let cache = ((kv.dict.chunk_table pos).value id).second in
      let cache' = set_shm_malloc_offset config cache (shm_malloc_offset config new_cache) in
      let kv' = record kv { dict = assign kv.dict pos id cache' } in
      elim (same_offset (shm_malloc_offset config cache') (shm_malloc_offset config new_cache)) [
        | true ↦ done kv'
        | false ↦ free_shm kv' (shm_malloc_offset config new_cache)
      ]

  -- The value's memory: `New`, `memcpy` and `GetMallocOffset`.
  unfoldable pub write_value : PetKv → List ℕ → Outcome (PetKv × ℕ)
  write_value kv log =
      Sized.new (perfect_fit_mod pre_known_value_size) (slab_sizes pre_known_value_size)
        kv.recycler.malloc kv.memory (length log)
      >>= λ (pool, memory, ptr). get_malloc_offset ptr >>= λ offset. done (
        record kv {
          memory = write_bytes memory ptr log;
          recycler = record kv.recycler { malloc = pool };
        },
        set_shm_malloc_offset config 0 (some offset),
      )

  -- `Update`. It returns true: where memory or slots run out it aborts.
  unfoldable pub update : PetKv → ℕ → List ℕ → Outcome (PetKv × Bool)
  update kv key log = elim (get_internal crc kv.dict key) [
    | retry ↦ spin
    | missing ↦ write_value kv log >>= λ (kv', new_cache).
        insert crc key new_cache none true kv'.dict >>= λ (dict, pos, id).
        store_offset (record kv' { dict = dict }) pos id new_cache >>= λ kv''. done (kv'', true)
    | at pos id ↦ write_value kv log >>= λ (kv', new_cache).
        free_shm kv' (shm_malloc_offset config ((kv'.dict.chunk_table pos).value id).second)
        >>= λ k. store_offset k pos id new_cache >>= λ kv''. done (kv'', true)
  ]
