-- ===== src/Engine/Fake.antt =====
-- src/kv_engine/engine_fake.h: `KVEngineFakeKV`, which reads and writes the values' memory without an index.
use pet_ps.Common.{ℕ, ◌*◌, ◌/◌, List, [], ◌∷◌, ◌++◌, some}
use pet_ps.Common.Bytes.{Memory, read_bytes, write_bytes}
use pet_ps.Engine.{Floats}

pub record FakeKv : Type 0 where
  pub memory : Memory
  pub value_size : ℕ

unfoldable pub get : FakeKv → ℕ → List ℕ
get e key = read_bytes e.memory key e.value_size

unfoldable pub put : FakeKv → ℕ → List ℕ → FakeKv
put e key value = record e { memory = write_bytes e.memory key value }

-- `BatchGet`, which adds to `values`.
unfoldable pub batch_get : FakeKv → List ℕ → List Floats → List Floats
batch_get e [] values = values
batch_get e (k ∷ keys) values =
    batch_get e keys (values ++ ((some (k * e.value_size), e.value_size / 4) ∷ []))
