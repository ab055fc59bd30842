-- ===== src/Load/Checked.antt =====
-- `CheckDBLoad` after `PreLoadDB`.
use pet_ps.Common.{Option, some, ℕ, ◌<◌, ◌≤◌, Bool, true, List, ◌≡◌}
use pet_ps.Load.{BaseKv, warm_value, fill, check_key}
use pet_ps.Load.Ranges.{own, number}

module _ (get_hash : ℕ → ℕ) (shards server_id : ℕ) where
  module _ {K : Type 0} (kv_api : BaseKv K) (float_bytes : ℕ → List ℕ) (value_size : ℕ)
      (close : List ℕ → ℕ → Bool) (Room : ℕ → K → Type 0) where
    abbrev is_mine : ℕ → Bool
    is_mine = own get_hash shards server_id

    abbrev total : ℕ → ℕ → ℕ
    total = number get_hash shards server_id

    abbrev warm : ℕ → List ℕ
    warm = warm_value get_hash shards server_id kv_api float_bytes value_size

    abbrev floats : ℕ → ℕ → List ℕ
    floats = fill get_hash shards server_id kv_api float_bytes value_size

    abbrev checked : K → ℕ → ℕ → ℕ × ℕ
    checked = check_key get_hash shards server_id kv_api float_bytes value_size close

    abbrev IsRight : K → ℕ → ℕ → Type 0
    IsRight kv a b =
        (key t : ℕ) → a ≤ key → key < b → is_mine key ≡ true → checked kv t key ≡ (1, 0)

    abbrev counts : ℕ → ℕ → Option (ℕ × ℕ)
    counts j left = some (total j left, 0)
