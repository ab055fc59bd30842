-- ===== src/Engine.antt =====
-- src/kv_engine/engine_map.h: `KVEngineMap`, and what the engines over other maps share with it: an index
-- from keys to packed offsets, over the values' memory, which `PersistSimpleMalloc` hands out.
-- A map is `find` and `insert`, which keeps the value of a key that it has. A pointer is its distance from
-- the allocator's `data_`. The offset of -1, at which a read has no meaning, is `fatal`.
pub mod Written
pub mod Stored
pub mod Maps
pub mod Batch
pub mod MapPm
pub mod MultiMapPm
pub mod F14
pub mod HashApi
pub mod Fake
use pet_ps.Common.{
  ℕ, ◌+◌, ◌*◌, ◌/◌, Bool, true, false, Option, none, some, List, [], ◌∷◌, ◌++◌, length, ◌==◌,
  if◌then◌else◌, update,
}
use pet_ps.Common.Bytes.{Memory, read_bytes, write_bytes}
use pet_ps.Common.Outcome.{Outcome, done, fatal, ◌>>=◌}
use pet_ps.KvData.{Config, shm_malloc_offset, set_shm_malloc_offset}
use pet_ps.SimpleMalloc.{SimpleMalloc, get_malloc_size, get_malloc_offset}
use pet_ps.SimpleMalloc

pub record HashTable (T : Type 0) : Type 0 where
  pub find : T → ℕ → Option ℕ
  pub insert : T → ℕ → ℕ → T

-- `std::unordered_map`; its `insert`, from what `find` has.
abbrev pub inserted : Option ℕ → (ℕ → Option ℕ) → ℕ → ℕ → ℕ → Option ℕ
inserted none t key value = update t key (some value)
inserted (some old) t key value = t

abbrev pub std_map : HashTable (ℕ → Option ℕ)
std_map = record { find = λ t key. t key; insert = λ t key value. inserted (t key) t key value }

pub record Engine (T : Type 0) : Type 0 where
  pub hash_table : T
  pub shm_malloc : SimpleMalloc
  pub memory : Memory

-- A float array of `BatchGet`: its start, and its size in floats.
abbrev pub Floats : Type 0
Floats = Option ℕ × ℕ

module _ {T : Type 0} (table : HashTable T) (config : Config) where
  -- `Get` of a key that the table has.
  unfoldable pub read_value : Engine T → ℕ → Outcome (List ℕ)
  read_value e word = elim (shm_malloc_offset config word) [
    | none ↦ fatal
    | some offset ↦ done (read_bytes e.memory offset (get_malloc_size e.shm_malloc offset))
  ]

  unfoldable pub get : Engine T → ℕ → Outcome (List ℕ)
  get e key = elim (table.find e.hash_table key) [ none ↦ done [] | some word ↦ read_value e word ]

  -- `Put`. A key that the table has is logged at most.
  unfoldable pub put : Engine T → ℕ → List ℕ → Outcome (Engine T)
  put e key value = SimpleMalloc.new e.shm_malloc (length value) >>= λ (m, sync_data).
      get_malloc_offset m sync_data >>= λ offset. done (record {
        hash_table = table.insert e.hash_table key (set_shm_malloc_offset config 0 (some offset));
        shm_malloc = m;
        memory = write_bytes e.memory sync_data value;
      })

  unfoldable pub floats_of : Engine T → Option ℕ → Outcome Floats
  floats_of e none = done (none, 0)
  floats_of e (some word) = elim (shm_malloc_offset config word) [
    | none ↦ fatal
    | some offset ↦ done (some offset, get_malloc_size e.shm_malloc offset / 4)
  ]

  unfoldable pub batch_from : Engine T → List ℕ → List Floats → Outcome (List Floats)
  batch_from e [] values = done values
  batch_from e (k ∷ keys) values =
      floats_of e (table.find e.hash_table k) >>= λ v. batch_from e keys (values ++ (v ∷ []))

  -- `BatchGet`, which clears `values` first.
  unfoldable pub batch_get : Engine T → List ℕ → Outcome (List Floats)
  batch_get e keys = batch_from e keys []
