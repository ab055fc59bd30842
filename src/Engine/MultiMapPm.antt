-- ===== src/Engine/MultiMapPm.antt =====
-- src/kv_engine/engine_multishard_map_pm.h: `KVEngineMultiMapPM`, whose keys are spread over 32 maps. The
-- hash is a parameter.
use pet_ps.Common.{ℕ, ◌%◌, Option, List, update}
use pet_ps.Common.Outcome.{Outcome}
use pet_ps.KvData.{Config}
use pet_ps.Engine.{Engine, HashTable, Floats, std_map}
use pet_ps.Engine

abbrev pub shard_num : ℕ
shard_num = 32

-- `hash_table_`
abbrev pub Tables : Type 0
Tables = ℕ → ℕ → Option ℕ

module _ (get_hash : ℕ → ℕ) where
  abbrev pub shard_of : ℕ → ℕ
  shard_of key = get_hash key % shard_num

  -- `find` and `insert` in the key's map.
  abbrev pub multi_map : HashTable Tables
  multi_map = record {
    find = λ t key. std_map.find (t (shard_of key)) key;
    insert = λ t key value. update t (shard_of key) (std_map.insert (t (shard_of key)) key value);
  }

  unfoldable pub get : Config → Engine Tables → ℕ → Outcome (List ℕ)
  get = Engine.get multi_map

  unfoldable pub put : Config → Engine Tables → ℕ → List ℕ → Outcome (Engine Tables)
  put = Engine.put multi_map

  unfoldable pub batch_get : Config → Engine Tables → List ℕ → Outcome (List Floats)
  batch_get = Engine.batch_get multi_map
