-- ===== src/SimpleMalloc.antt =====
-- src/memory/persist_malloc.h: `PersistSimpleMalloc`, a cursor that runs over the memory and starts
-- again at its end. A pointer is its distance from `data_`; the operations that abort are left out.
pub mod Cursor
use pet_ps.Common.{
  ℕ, ◌+◌, ◌*◌, ◌/◌, ◌%◌, ◌^◌, Bool, true, false, ltb, leb, ◌==◌, if◌then◌else◌, update, ◌||◌, not,
}
use pet_ps.Common.Outcome.{Outcome, done, fatal}

pub record SimpleMalloc : Type 0 where
  pub memory_size : ℕ
  pub slab_size : ℕ
  pub allocated : ℕ
  pub nr_malloc : ℕ
  pub meta_data_block : ℕ → ℕ

-- The constructor, over the memory of the file.
unfoldable pub construct : (ℕ → ℕ) → ℕ → ℕ → SimpleMalloc
construct meta memory_size slab_size = record {
  memory_size = memory_size;
  slab_size = slab_size;
  allocated = slab_size;
  nr_malloc = 0;
  meta_data_block = meta;
}

-- `New`; a failed CHECK is `fatal`.
unfoldable pub new : SimpleMalloc → ℕ → Outcome (SimpleMalloc × ℕ)
new m malloc_size =
    let wraps = leb m.memory_size (m.allocated + m.slab_size) in
    let offset = if wraps then 0 else m.allocated in
    let allocated = if wraps then 0 else (m.allocated + malloc_size) % 2 ^ 64 in
    if not (malloc_size == m.slab_size) || ltb m.memory_size (offset + m.slab_size)
    then fatal
    else done (
      record m {
        allocated = allocated;
        nr_malloc = (m.nr_malloc + 1) % 2 ^ 64;
        meta_data_block = update m.meta_data_block (offset / m.slab_size) malloc_size;
      },
      offset,
    )

-- `GetMallocSize` of an offset.
unfoldable pub get_malloc_size : SimpleMalloc → ℕ → ℕ
get_malloc_size m offset = m.meta_data_block (offset / m.slab_size)

-- `GetMallocOffset`
unfoldable pub get_malloc_offset : SimpleMalloc → ℕ → Outcome ℕ
get_malloc_offset m ptr = if ltb (ptr + m.slab_size) m.memory_size then done ptr else fatal
