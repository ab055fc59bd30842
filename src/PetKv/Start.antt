-- ===== src/PetKv/Start.antt =====
-- The constructor of `PetKV`, over what its files hold.
use pet_ps.Common.{ℕ, ◌%◌, ◌^◌, Bool, true, [], ◌==◌, if◌then◌else◌}
use pet_ps.Common.Bytes.{Memory}
use pet_ps.Common.Outcome.{Outcome, done, fatal, ◌>>=◌}
use pet_ps.KvData.{Config}
use pet_ps.Epoch.{EpochManager}
use pet_ps.Pool.{Chunk}
use pet_ps.PetHash.Table.{PetHash, initialize}
use pet_ps.PetHash.Valid.{valid}
use pet_ps.PetHash.Reload.{reload}
use pet_ps.MemoryPool
use pet_ps.MemoryPool.{MemoryPool, listed_size}
use pet_ps.PetKv.{PetKv, slab_sizes}

-- What the constructor finds in the files, the epoch manager that the process has, and the two
-- parameters of the index.
pub record Files : Type 0 where
  pub chunks : ℕ → Chunk
  pub memory : Memory
  pub pool_exists : Bool
  pub dict : PetHash
  pub dict_file_size : ℕ
  pub epoch_manager : EpochManager
  pub scale : ℕ → ℕ
  pub size_of_chunk : ℕ

module _ (crc : ℕ → ℕ) (config : Config) (pre_known_value_size : ℕ) (files : Files) where
  -- The index: reloaded if it is valid, and new otherwise.
  unfoldable pub open_dict : ℕ → Outcome PetHash
  open_dict capacity =
      valid crc files.scale files.size_of_chunk files.dict files.dict_file_size >>= λ ok.
      if ok
      then reload crc files.scale files.dict capacity true
      else done (initialize files.scale files.dict capacity true)

  -- The parts put together, and `CHECK_EQ(dict_->Size(), shm_malloc_->total_malloc())`. `Size` returns
  -- 32 bits.
  unfoldable pub put_together :
      PetHash → MemoryPool → Outcome (PetKv crc config pre_known_value_size)
  put_together dict pool =
      if dict.size % 2 ^ 32 == pool.total_malloc
      then done (record {
        dict = dict;
        memory = files.memory;
        recycler = record {
          malloc = pool;
          epoch_manager = files.epoch_manager;
          recycle_ptr = [];
          recycled_count = 0;
        };
      })
      else fatal

  unfoldable pub construct : ℕ → ℕ → Outcome (PetKv crc config pre_known_value_size)
  construct memory_size capacity =
      MemoryPool.construct files.chunks memory_size (slab_sizes pre_known_value_size)
        files.pool_exists
      >>= λ pool. open_dict capacity >>= λ dict. put_together dict pool
