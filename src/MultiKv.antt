-- ===== src/MultiKv.antt =====
-- src/pet_kv/pet_kv.h and src/pet_kv/pet_kv.cc: `PetMultiKV`, the shards of a store, and
-- src/kv_engine/engine_pethash.h: `KVEnginePetKV`, the engine over it.
-- `get_hash` is `GetHashWithLevel(key, 1)` of src/base/hash.h. The shards share `kConfig` and the
-- process's one epoch manager.
pub mod Refines
pub mod Batch
use pet_ps.Common.{
  ℕ, zero, suc, ◌+◌, ◌-◌, ◌*◌, ◌/◌, ◌%◌, ◌^◌, Bool, true, false, Option, none, some, List, [], ◌∷◌,
  ◌++◌, ◌==◌, if◌then◌else◌, update, sum_below,
}
use pet_ps.Common.Bytes.{read_bytes}
use pet_ps.Common.Outcome.{Outcome, done, fatal, ◌>>=◌}
use pet_ps.KvData.{Config}
use pet_ps.Epoch.{EpochManager}
use pet_ps.PetKv
use pet_ps.PetKv.{PetKv, PetKvReadData}

-- An array of floats: in a shard's memory, or the buffer of zeros, whose start is `none`. The size is
-- in floats.
abbrev pub Floats : Type 0
Floats = Option ℕ × ℕ

module _ (crc : ℕ → ℕ) (get_hash : ℕ → ℕ) (config : Config) (pre_known_value_size : ℕ) where
  pub record MultiKv : Type 0 where
    pub shard_num : ℕ
    pub shm_kv : ℕ → PetKv crc config pre_known_value_size
    pub epoch_manager : EpochManager

  -- A shard whose recycler has the process's epoch manager.
  abbrev pub sharing :
      EpochManager → PetKv crc config pre_known_value_size → PetKv crc config pre_known_value_size
  sharing epoch_manager kv = record kv {
    recycler = record kv.recycler { epoch_manager = epoch_manager };
  }

  abbrev pub shard_at : MultiKv → ℕ → PetKv crc config pre_known_value_size
  shard_at m i = sharing m.epoch_manager (m.shm_kv i)

  unfoldable pub get_shard : MultiKv → ℕ → ℕ
  get_shard m key = get_hash key % m.shard_num

  unfoldable pub update_key : MultiKv → ℕ → List ℕ → Outcome (MultiKv × Bool)
  update_key m key log =
      PetKv.update crc config pre_known_value_size (shard_at m (get_shard m key)) key log
      >>= λ (kv, ok). done (
        record m {
          shm_kv = update m.shm_kv (get_shard m key) kv;
          epoch_manager = kv.recycler.epoch_manager;
        },
        ok,
      )

  unfoldable pub get : MultiKv → ℕ → Outcome PetKvReadData
  get m key = PetKv.get crc config pre_known_value_size (shard_at m (get_shard m key)) key

  -- `key_num`
  unfoldable pub key_num : MultiKv → ℕ
  key_num m = sum_below m.shard_num (λ i. (m.shm_kv i).dict.size)

  unfoldable pub floats_of : PetKvReadData → Floats
  floats_of read_data =
      if read_data.size == 0
      then (none, pre_known_value_size / 4)
      else (read_data.value_data, read_data.size / 4)

  -- `BatchGet`, less the prefetches.
  unfoldable pub batch_get : MultiKv → List ℕ → List Floats → Outcome (List Floats)
  batch_get m [] values = done values
  batch_get m (key ∷ keys) values =
      get m key >>= λ read_data. batch_get m keys (values ++ (floats_of read_data ∷ []))

  -- `shm_dir` of a shard: the index of its directory.
  unfoldable pub shm_dir_index : ℕ → ℕ → ℕ
  shm_dir_index dirs shard_id = shard_id % dirs

  -- The engine. `Get` leaves the caller's string alone if the key is missing.
  unfoldable pub engine_get : MultiKv → ℕ → List ℕ → Outcome (List ℕ)
  engine_get m key value = get m key >>= λ kv_data. elim kv_data.value_data [
    | none ↦ done value
    | some ptr ↦ done (read_bytes (m.shm_kv (get_shard m key)).memory ptr kv_data.size)
  ]

  unfoldable pub engine_put : MultiKv → ℕ → List ℕ → Outcome MultiKv
  engine_put m key value = update_key m key value >>= λ (m', ok). if ok then done m' else fatal

  -- `BatchGet` with `FLAGS_prefetch_method` 0: the loop of its own.
  unfoldable pub engine_batch_from : MultiKv → List ℕ → List Floats → Outcome (List Floats)
  engine_batch_from m [] values = done values
  engine_batch_from m (k ∷ keys) values = get m k >>= λ kv_data.
      engine_batch_from m keys (values ++ ((kv_data.value_data, kv_data.size / 4) ∷ []))

  unfoldable pub engine_batch_get : MultiKv → List ℕ → ℕ → List Floats → Outcome (List Floats)
  engine_batch_get m keys prefetch_method values =
      if prefetch_method == 0
      then engine_batch_from m keys []
      else if prefetch_method == 1
      then batch_get m keys []
      else done []
