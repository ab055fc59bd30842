-- ===== src/Load/Loaded.antt =====
-- The store after `PreLoadDB`.
use pet_ps.Common.{ℕ, Bool, List}
use pet_ps.Load.{BaseKv, warm_value}
use pet_ps.Load.Ranges.{own, number}
use pet_ps.Load.Filled.{Filled}

module _ (get_hash : ℕ → ℕ) (shards server_id : ℕ) {K : Type 0} (kv_api : BaseKv K)
    (float_bytes : ℕ → List ℕ) (value_size : ℕ) (Room : ℕ → K → Type 0) where
  abbrev mine : ℕ → Bool
  mine = own get_hash shards server_id

  abbrev total : ℕ → ℕ → ℕ
  total = number get_hash shards server_id

  abbrev warm : ℕ → List ℕ
  warm = warm_value get_hash shards server_id kv_api float_bytes value_size
