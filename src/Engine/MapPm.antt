-- ===== src/Engine/MapPm.antt =====
-- src/kv_engine/engine_mappm.h: `KVEngineMapPM`, whose map is a `std::unordered_map` in persistent memory.
use pet_ps.Common.{ℕ, Option, List}
use pet_ps.Common.Outcome.{Outcome}
use pet_ps.KvData.{Config}
use pet_ps.Engine.{Engine, Floats, std_map}
use pet_ps.Engine

unfoldable pub get : Config → Engine (ℕ → Option ℕ) → ℕ → Outcome (List ℕ)
get = Engine.get std_map

unfoldable pub put : Config → Engine (ℕ → Option ℕ) → ℕ → List ℕ → Outcome (Engine (ℕ → Option ℕ))
put = Engine.put std_map

unfoldable pub batch_get : Config → Engine (ℕ → Option ℕ) → List ℕ → Outcome (List Floats)
batch_get = Engine.batch_get std_map
