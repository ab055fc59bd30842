-- ===== src/Tests/Loads.antt =====
-- Loading the engine over a map with the keys of one of two shards.
use pet_ps.Common.{ℕ, Bool, false, Option, List, [], ◌∷◌, ◌==◌}
use pet_ps.Engine
use pet_ps.Engine.{Engine, std_map}
use pet_ps.Load.{BaseKv, LoadDbHelper}
use pet_ps.Load.Mapped.{map_kv, HasSlabs}
use pet_ps.Tests.Stores.{layout}

abbrev kv_api : BaseKv (Engine (ℕ → Option ℕ))
kv_api = map_kv std_map layout

abbrev Room : ℕ → Engine (ℕ → Option ℕ) → Type 0
Room = HasSlabs std_map layout 16

abbrev helper : LoadDbHelper
helper = record { warm_thread_count = 3; warm_capacity = 10; warmup_kv_count_in_this_ps = 0 }

abbrev key_bytes : ℕ → List ℕ
key_bytes key = key ∷ 0 ∷ 0 ∷ 0 ∷ []

abbrev is_close : List ℕ → ℕ → Bool
is_close [] key = false
is_close (x ∷ xs) key = x == key

abbrev plain_hash : ℕ → ℕ
plain_hash key = key
