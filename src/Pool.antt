-- ===== src/Pool.antt =====
-- src/memory/persist_malloc.h: `PersistMemoryPool::Chunk`, two MB of persistent memory cut into
-- slabs of one size, with a bit map of the slabs that are taken.
-- A pointer is its distance from the start of the file; `chunk_start` is the chunk's. A null pointer
-- is `none`. The header's fields and the bit map are persistent, the other two fields are not.
pub mod Cut
pub mod Slab
use pet_ps.Common.{
  ℕ, zero, suc, ◌+◌, ◌-◌, ◌*◌, ◌/◌, ◌%◌, ◌^◌, Bool, true, false, Option, none, some, ltb, ◌==◌,
  if◌then◌else◌,
}
use pet_ps.BitMap
use pet_ps.BitMap.{BitMap}

abbrev pub chunk_size : ℕ
chunk_size = 2 * 1024 * 1024

-- `sizeof(ChunkHeader)`: two flags and two `int`s, aligned for the bit map behind them.
abbrev pub size_of_chunk_header : ℕ
size_of_chunk_header = 16

-- `HeaderSize`
unfoldable pub header_size : ℕ → ℕ
header_size nr_entries = size_of_chunk_header + (BitMap.size_of_header + nr_entries / 64 * 8)

pub record Chunk : Type 0 where
  pub is_used : Bool
  pub slab_size : ℕ
  pub nr_entries : ℕ
  pub bitmap : BitMap
  pub is_recovered : Bool
  pub allocated_entries : ℕ

-- `while (HeaderSize(nr_entries) + nr_entries * slab_size > kChunkSize) nr_entries -= 64;`, with the
-- rounds left.
unfoldable pub fit_from : ℕ → ℕ → ℕ → ℕ
fit_from slab_size zero nr_entries = nr_entries
fit_from slab_size (suc left) nr_entries =
    let rest = fit_from slab_size left (nr_entries - 64) in
    if ltb chunk_size (header_size nr_entries + nr_entries * slab_size) then rest else nr_entries

unfoldable pub entries_for : ℕ → ℕ
unfolding fit_from
entries_for slab_size =
    let most = chunk_size / slab_size in
    let whole = most - most % 64 in fit_from slab_size (whole / 64) whole

-- `Use`; a failed CHECK is `none`. `memory` holds the words behind the header.
unfoldable pub use_slab : (ℕ → ℕ) → Chunk → ℕ → Option Chunk
use_slab memory c slab_size =
    let nr_entries = entries_for slab_size in
    if nr_entries == 0 then none else elim (BitMap.new memory nr_entries) [
      | none ↦ none
      | some bitmap ↦ some (record {
        is_used = true;
        slab_size = slab_size;
        nr_entries = nr_entries;
        bitmap = BitMap.clear_all bitmap;
        is_recovered = true;
        allocated_entries = 0;
      })
    ]

unfoldable pub recovery : Chunk → Chunk
recovery c =
    if c.is_recovered
    then c
    else record c { allocated_entries = BitMap.number_of_ones c.bitmap; is_recovered = true }

unfoldable pub full : Chunk → Bool
full c = c.allocated_entries == c.nr_entries

-- `Entry` and `EntryId`, with the start of the slabs, `data_`.
unfoldable pub data_start : ℕ → Chunk → ℕ
data_start chunk_start c = chunk_start + header_size c.nr_entries

unfoldable pub entry : ℕ → Chunk → ℕ → ℕ
unfolding data_start
entry chunk_start c entry_id = data_start chunk_start c + entry_id * c.slab_size

unfoldable pub entry_id : ℕ → Chunk → ℕ → ℕ
unfolding data_start
entry_id chunk_start c memory_data = (memory_data - data_start chunk_start c) / c.slab_size

-- What `Malloc` does with the answer of `SetZeroPos`.
unfoldable pub take_entry : ℕ → Chunk → BitMap × Option ℕ → Chunk × Option ℕ
take_entry chunk_start c (bitmap, none) = (record c { bitmap = bitmap }, none)
take_entry chunk_start c (bitmap, some id) = (
  record c { bitmap = bitmap; allocated_entries = c.allocated_entries + 1 },
  some (entry chunk_start c id),
)

unfoldable pub malloc : ℕ → Chunk → Chunk × Option ℕ
malloc chunk_start c =
    let c' = recovery c in take_entry chunk_start c' (BitMap.set_zero_pos c'.bitmap)

-- `Free`
unfoldable pub free_slab : ℕ → Chunk → ℕ → Chunk
free_slab chunk_start c memory_data =
    let c' = recovery c in
    record c' {
      allocated_entries = c'.allocated_entries - 1;
      bitmap = BitMap.clear c'.bitmap (entry_id chunk_start c' memory_data);
    }

-- `ValidPointerRange`
unfoldable pub valid_pointer_range : ℕ → Chunk → ℕ → ℕ → Bool
valid_pointer_range chunk_start c start_at end_at =
    let low = data_start chunk_start c in
    if end_at - start_at == c.slab_size
    then if ltb start_at low
      then false
      else if ltb (low + c.slab_size * c.nr_entries) end_at
      then false
      else true
    else false
