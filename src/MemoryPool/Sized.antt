-- ===== src/MemoryPool/Sized.antt =====
-- The calls of `MallocApi` on `PersistMemoryPool`, for both values of `PERFECT_FIT_MOD`: where sizes
-- need not fit perfectly, a value stands behind an `int` with its size, in a slab of the next size.
-- `memory` is what the file holds, as the program reads and writes it through pointers.
use pet_ps.Common.{
  ℕ, ◌+◌, ◌-◌, ◌*◌, ◌/◌, Bool, true, false, Option, none, some, List, [], ◌∷◌, ◌++◌, map, ltb, ◌&&◌,
  leb, ◌==◌, if◌then◌else◌, zero, suc, length,
}
use pet_ps.Common.Bytes.{Memory, read_int, write_int}
use pet_ps.Common.Outcome.{Outcome, done, fatal, ◌>>=◌}
use pet_ps.BitMap
use pet_ps.Pool.{Chunk, chunk_size, entry}
use pet_ps.MemoryPool.{MemoryPool, new_internal}
use pet_ps.MemoryPool

abbrev pub meta_data_size : ℕ
meta_data_size = 8

-- `allocated_slab_sizes_.lower_bound(size)`: the least size of the set that is not below.
unfoldable pub lower_bound : List ℕ → ℕ → Option ℕ
lower_bound [] size = none
lower_bound (s ∷ sizes) size = elim (lower_bound sizes size) [
  | none ↦ if leb size s then some s else none
  | some s' ↦ if leb size s && ltb s s' then some s else some s'
]

-- `New`
unfoldable pub new : Bool → List ℕ → MemoryPool → Memory → ℕ → Outcome (MemoryPool × Memory × ℕ)
new perfect_fit_mod slab_sizes p memory memory_size = elim perfect_fit_mod [
  | true ↦ new_internal p memory_size >>= λ (p', ptr). done (p', memory, ptr)
  | false ↦ elim (lower_bound slab_sizes (meta_data_size + memory_size)) [
    | none ↦ fatal
    | some slab_size ↦ new_internal p slab_size >>= λ (p', ptr).
        done (p', write_int memory ptr memory_size, ptr + meta_data_size)
  ]
]

-- `Free`. A pointer before the start of the file has no chunk.
unfoldable pub free : Bool → MemoryPool → ℕ → MemoryPool × Bool
free perfect_fit_mod p memory_data =
    if perfect_fit_mod
    then MemoryPool.free p memory_data
    else if ltb memory_data meta_data_size
    then (p, false)
    else MemoryPool.free p (memory_data - meta_data_size)

-- `GetMallocSize` and `GetMallocOffset`; `GetMallocData` is the identity on distances.
unfoldable pub get_malloc_size : Bool → MemoryPool → Memory → ℕ → ℕ
get_malloc_size perfect_fit_mod p memory ptr =
    if perfect_fit_mod
    then (p.chunks (ptr / chunk_size)).slab_size
    else read_int memory (ptr - meta_data_size)

unfoldable pub get_malloc_offset : ℕ → Outcome ℕ
get_malloc_offset ptr = if ptr / 8 * 8 == ptr then done ptr else fatal

-- `GetMallocedData` of a chunk: the loop over its entries with its rounds left and `i`; `none` is the
-- failed CHECK on their number.
unfoldable pub malloced_from : ℕ → Chunk → ℕ → ℕ → List ℕ
malloced_from chunk_start c zero i = []
malloced_from chunk_start c (suc left) i =
    let rest = malloced_from chunk_start c left (i + 1) in
    if BitMap.get c.bitmap i then entry chunk_start c i ∷ rest else rest

unfoldable pub get_malloced_data : ℕ → Chunk → Option (List ℕ)
unfolding malloced_from
get_malloced_data chunk_start c =
    let found = malloced_from chunk_start c c.nr_entries 0 in
    if length found == c.allocated_entries then some found else none

-- `GetMallocsAppend`, over the chunks left from `i`.
unfoldable pub get_mallocs_from : Bool → MemoryPool → ℕ → ℕ → List ℕ → Outcome (List ℕ)
get_mallocs_from perfect_fit_mod p zero i mallocs_data = done mallocs_data
get_mallocs_from perfect_fit_mod p (suc left) i mallocs_data =
    elim (get_malloced_data (i * chunk_size) (p.chunks i)) [
      | none ↦ fatal
      | some found ↦
          let shifted =
            if perfect_fit_mod then found else map (λ each. each + meta_data_size) found in
          get_mallocs_from perfect_fit_mod p left (i + 1) (mallocs_data ++ shifted)
    ]
