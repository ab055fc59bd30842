-- ===== src/Engine/HashApi.antt =====
-- src/kv_engine/engine_hashapi.h: `HashAPI`, over the hash tables of a benchmark suite, which are a parameter:
-- `insert` takes a running number, and its result is not looked at.
use pet_ps.Common.{ℕ, ◌+◌, ◌%◌, ◌^◌, Option, none, some, List, [], ◌∷◌, ◌++◌, length}
use pet_ps.Common.Bytes.{write_bytes}
use pet_ps.Common.Outcome.{Outcome, done, ◌>>=◌}
use pet_ps.KvData.{Config, set_shm_malloc_offset}
use pet_ps.SimpleMalloc.{SimpleMalloc, get_malloc_offset}
use pet_ps.SimpleMalloc
use pet_ps.Engine.{Engine, HashTable, Floats, floats_of, read_value}

pub record HashApiTable (T : Type 0) : Type 0 where
  pub find : T → ℕ → Option ℕ
  pub insert : T → ℕ → ℕ → ℕ → T

pub record HashApi (T : Type 0) : Type 0 where
  pub engine : Engine T
  pub counter : ℕ

module _ {T : Type 0} (table : HashApiTable T) (config : Config) where
  -- The table at one number.
  abbrev pub at_counter : ℕ → HashTable T
  at_counter counter = record {
    find = table.find;
    insert = λ t key value. table.insert t key value counter;
  }

  unfoldable pub get : HashApi T → ℕ → Outcome (List ℕ)
  get h key = elim (table.find h.engine.hash_table key) [
    | none ↦ done []
    | some word ↦ read_value (at_counter h.counter) config h.engine word
  ]

  unfoldable pub put : HashApi T → ℕ → List ℕ → Outcome (HashApi T)
  put h key value = SimpleMalloc.new h.engine.shm_malloc (length value) >>= λ (m, sync_data).
      get_malloc_offset m sync_data >>= λ offset. done (record {
        engine = record {
          hash_table =
              table.insert h.engine.hash_table key (set_shm_malloc_offset config 0 (some offset))
                h.counter;
          shm_malloc = m;
          memory = write_bytes h.engine.memory sync_data value;
        };
        counter = (h.counter + 1) % 2 ^ 64;
      })

  unfoldable pub batch_from : HashApi T → List ℕ → List Floats → Outcome (List Floats)
  batch_from h [] values = done values
  batch_from h (k ∷ keys) values =
      floats_of (at_counter h.counter) config h.engine (table.find h.engine.hash_table k) >>= λ v.
      batch_from h keys (values ++ (v ∷ []))

  unfoldable pub batch_get : HashApi T → List ℕ → Outcome (List Floats)
  batch_get h keys = batch_from h keys []
