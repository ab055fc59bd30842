-- ===== src/MemoryPool.antt =====
-- src/memory/persist_malloc.h: `PersistMemoryPool` over its chunks, with sizes that fit perfectly
-- (`PERFECT_FIT_MOD`). A chunk is its index; a pointer is its distance from the start of the file.
-- A read through a null entry of `size_to_chunks_` is `fatal`.
pub mod Invariant
pub mod Use
pub mod Taken
pub mod New
pub mod Release
pub mod Relisted
pub mod Restart
pub mod Sized
pub mod Geometry
pub mod Slabs
pub mod Placement
pub mod Start
use pet_ps.Common.{
  ℕ, zero, suc, ◌+◌, ◌-◌, ◌*◌, ◌/◌, ◌%◌, ◌^◌, Bool, true, false, Option, none, some, List, [], ◌∷◌,
  ◌++◌, length, ltb, ◌==◌, if◌then◌else◌, update,
}
use pet_ps.Common.Outcome.{Outcome, done, fatal}
use pet_ps.BitMap.{BitMap}
use pet_ps.Pool.{Chunk, chunk_size, full, use_slab, malloc, free_slab, recovery}

pub record MemoryPool : Type 0 where
  pub nr_chunks : ℕ
  pub chunks : ℕ → Chunk
  pub free_chunks : List ℕ
  pub size_to_chunks : ℕ → Option (List ℕ)
  pub size_to_last_used_chunk : ℕ → Option ℕ
  pub total_malloc : ℕ

-- `Malloc` in chunk `i`, `CHECK(return_ptr)` and `total_malloc_++`.
unfoldable pub malloc_in : MemoryPool → ℕ → Outcome (MemoryPool × ℕ)
malloc_in p i =
    let (c, found) = malloc (i * chunk_size) (p.chunks i) in
    elim found [
      | none ↦ fatal
      | some ptr ↦ done (
        record p { chunks = update p.chunks i c; total_malloc = (p.total_malloc + 1) % 2 ^ 64 },
        ptr,
      )
    ]

-- The last used chunk of a size, unless it is full.
unfoldable pub open_last : MemoryPool → ℕ → Option ℕ
open_last p slab_size = elim (p.size_to_last_used_chunk slab_size) [
  | none ↦ none
  | some i ↦ if full (p.chunks i) then none else some i
]

-- The loop over the chunks of a size.
unfoldable pub first_open : (ℕ → Chunk) → List ℕ → Option ℕ
first_open chunks [] = none
first_open chunks (i ∷ rest) =
    let later = first_open chunks rest in if full (chunks i) then later else some i

-- A free chunk, at the front, put to use for a size.
unfoldable pub use_front : MemoryPool → ℕ → ℕ → List ℕ → Chunk → List ℕ → MemoryPool
use_front p slab_size i rest c chunks = record p {
  chunks = update p.chunks i c;
  free_chunks = rest;
  size_to_chunks = update p.size_to_chunks slab_size (some (chunks ++ (i ∷ [])));
  size_to_last_used_chunk = update p.size_to_last_used_chunk slab_size (some i);
}

unfoldable pub new_internal : MemoryPool → ℕ → Outcome (MemoryPool × ℕ)
new_internal p slab_size = elim (open_last p slab_size) [
  | some i ↦ malloc_in p i
  | none ↦ elim p.free_chunks [
    | i ∷ rest ↦ elim (use_slab (p.chunks i).bitmap.bits (p.chunks i) slab_size) [
      | none ↦ fatal
      | some c ↦ elim (p.size_to_chunks slab_size) [
        | none ↦ fatal
        | some chunks ↦ malloc_in (use_front p slab_size i rest c chunks) i
      ]
    ]
    | [] ↦ elim (p.size_to_chunks slab_size) [
      | none ↦ fatal
      | some chunks ↦ elim (first_open p.chunks chunks) [ none ↦ fatal | some i ↦ malloc_in p i ]
    ]
  ]
]

-- `Free`
unfoldable pub free : MemoryPool → ℕ → MemoryPool × Bool
free p memory_data =
    let i = memory_data / chunk_size in
    if ltb i p.nr_chunks
    then (
      record p {
        chunks = update p.chunks i (free_slab (i * chunk_size) (p.chunks i) memory_data);
        total_malloc = (p.total_malloc + (2 ^ 64 - 1)) % 2 ^ 64;
      },
      true,
    )
    else (p, false)

-- The constructor. `chunks` is what the file holds; `file_exists` also says that it was opened.
unfoldable pub push_free : MemoryPool → ℕ → MemoryPool
push_free p i = record p { free_chunks = p.free_chunks ++ (i ∷ []) }

unfoldable pub push_used : MemoryPool → ℕ → List ℕ → MemoryPool
push_used p i listed =
    let c = recovery (p.chunks i) in
    record p {
      chunks = update p.chunks i c;
      size_to_chunks = update p.size_to_chunks (p.chunks i).slab_size (some (listed ++ (i ∷ [])));
      total_malloc = (p.total_malloc + c.allocated_entries) % 2 ^ 64;
    }

-- The loop that recovers the chunks, with its rounds left and `i`.
unfoldable pub recover_from : ℕ → ℕ → MemoryPool → Outcome MemoryPool
recover_from zero i p = done p
recover_from (suc left) i p = elim (p.chunks i).is_used [
  | false ↦ recover_from left (i + 1) (push_free p i)
  | true ↦ elim (p.size_to_chunks (p.chunks i).slab_size) [
    | none ↦ fatal
    | some listed ↦ recover_from left (i + 1) (push_used p i listed)
  ]
]

-- The loop of a first start.
unfoldable pub clear_from : ℕ → ℕ → MemoryPool → MemoryPool
clear_from zero i p = p
clear_from (suc left) i p = clear_from left (i + 1) (
    push_free (record p { chunks = update p.chunks i (record (p.chunks i) { is_used = false }) }) i)

abbrev pub listed_size : List ℕ → ℕ → Bool
listed_size [] s = false
listed_size (x ∷ xs) s = if x == s then true else listed_size xs s

unfoldable pub opened : (ℕ → Chunk) → ℕ → List ℕ → MemoryPool
opened chunks memory_size slab_sizes = record {
  nr_chunks = memory_size / chunk_size;
  chunks = chunks;
  free_chunks = [];
  size_to_chunks = λ s. if listed_size slab_sizes s then some [] else none;
  size_to_last_used_chunk = λ _. none;
  total_malloc = 0;
}

unfoldable pub construct : (ℕ → Chunk) → ℕ → List ℕ → Bool → Outcome MemoryPool
construct chunks memory_size slab_sizes file_exists =
    let p = opened chunks memory_size slab_sizes in
    if ltb p.nr_chunks (length slab_sizes)
    then fatal
    else if file_exists
    then recover_from p.nr_chunks 0 p
    else done (clear_from p.nr_chunks 0 p)
