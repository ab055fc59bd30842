-- ===== src/PetKv/Store.antt =====
-- When a store is well formed, and what it reads.
use pet_ps.Common.{
  ℕ, ◌+◌, ◌-◌, ◌*◌, ◌^◌, ◌≤◌, Bool, true, false, Option, none, some, List, count, ◌==◌,
  if◌then◌else◌, ◌≡◌, refl, ap, Bool-cases, inl, inr, ◌⊎◌,
}
use pet_ps.Common.Bytes.{Memory, read_bytes, read_int}
use pet_ps.Common.Outcome.{Outcome, done, ◌>>=◌}
use pet_ps.KvData.{Config, expire_timet, shm_malloc_offset}
use pet_ps.KvData.Fields.{IsLayout}
use pet_ps.Pool.{chunk_size}
use pet_ps.PetHash.Search
use pet_ps.PetHash.Invariant.{Inv}
use pet_ps.PetHash.Lookup.{get-cases, get-Stored, get-Absent}
use pet_ps.MemoryPool.{MemoryPool, listed_size}
use pet_ps.MemoryPool.Sized.{get_malloc_size, meta_data_size}
use pet_ps.MemoryPool.Slabs.{Slab}
use pet_ps.MemoryPool.Placement.{meta_of, IsServed}
use pet_ps.PetKv.{PetKv, get, read_data, perfect_fit_mod, slab_sizes}
use pet_ps.PetKv.Queue.{pointers, IsQueue}

-- The size of the value at a pointer.
abbrev pub sized : Bool → ℕ → Memory → ℕ → ℕ
sized true pre_known_value_size memory ptr = pre_known_value_size
sized false pre_known_value_size memory ptr = read_int memory (ptr - meta_data_size)

module _ (crc : ℕ → ℕ) (config : Config) (pre : ℕ) where
  abbrev pub perfect : Bool
  perfect = perfect_fit_mod pre

  -- The bytes that a reader of the key copies out; `none` if the key is missing.
  unfoldable pub value_of : PetKv crc config pre → ℕ → Outcome (Option (List ℕ))
  value_of kv key = get crc config pre kv key >>= λ r. elim r.value_data [
    | none ↦ done none
    | some ptr ↦ done (some (read_bytes kv.memory ptr r.size))
  ]

  -- A word of the index names an allocated slab with room for the value.
  pub record IsValue (p : MemoryPool) (memory : Memory) (word : ℕ) : Type 0 where
    pub ptr : ℕ
    pub named : shm_malloc_offset config word ≡ some ptr
    pub slab : Slab (meta_of perfect) p ptr (sized perfect pre memory ptr)

  pub record IsStore (kv : PetKv crc config pre) : Type 0 where
    pub width : ℕ
    pub layout : IsLayout width config
    pub covers : kv.recycler.malloc.nr_chunks * chunk_size + 16 ≤ 2 ^ (width + 3)
    pub small : kv.recycler.malloc.nr_chunks * chunk_size + 16 ≤ 2 ^ 64
    pub served : (s : ℕ) → listed_size (slab_sizes pre) s ≡ true → IsServed kv.recycler.malloc s
    pub index : Inv crc kv.dict (λ _. 0)
    pub queue : IsQueue perfect kv.recycler.malloc kv.recycler.recycle_ptr
    pub values :
        (key word : ℕ)
        → Search.get crc kv.dict key ≡ done (word, true)
        → IsValue kv.recycler.malloc kv.memory word
    -- No two keys share a slab, and none that waits in the queue has a key.
    pub alone :
        (key word key' word' ptr : ℕ)
        → Search.get crc kv.dict key ≡ done (word, true)
        → Search.get crc kv.dict key' ≡ done (word', true)
        → shm_malloc_offset config word ≡ some ptr
        → shm_malloc_offset config word' ≡ some ptr
        → key ≡ key'
    pub unqueued :
        (key word ptr : ℕ)
        → Search.get crc kv.dict key ≡ done (word, true)
        → shm_malloc_offset config word ≡ some ptr
        → count ptr (pointers kv.recycler.recycle_ptr) ≡ 0

  sized_lem :
      (p : MemoryPool) (memory : Memory) (ptr : ℕ)
      → (if pre == 0 then get_malloc_size false p memory ptr else pre)
        ≡ sized perfect pre memory ptr
  unfolding get_malloc_size
  sized_lem p memory ptr = elim (Bool-cases (pre == 0)) [ inl e ↦ rw e refl | inr e ↦ rw e refl ]

  get-found :
      (kv : PetKv crc config pre) (key word ptr : ℕ)
      → Search.get crc kv.dict key ≡ done (word, true)
      → shm_malloc_offset config word ≡ some ptr
      → get crc config pre kv key
        ≡ done (record {
          expire_timet = expire_timet config word;
          value_data = some ptr;
          size = if pre == 0 then get_malloc_size false kv.recycler.malloc kv.memory ptr else pre;
        })
  unfolding get read_data
  get-found kv key word ptr g o = rw g (rw (read_data, o) refl)

  pub value_of-some :
      (kv : PetKv crc config pre) (key word ptr : ℕ)
      → Search.get crc kv.dict key ≡ done (word, true)
      → shm_malloc_offset config word ≡ some ptr
      → value_of kv key ≡ done (some (read_bytes kv.memory ptr (sized perfect pre kv.memory ptr)))
  unfolding value_of
  value_of-some kv key word ptr g o =
      let found = get-found kv key word ptr g o in
      rw found (
        ap (λ (n : ℕ). done (some (read_bytes kv.memory ptr n)))
          (sized_lem kv.recycler.malloc kv.memory ptr))

  pub value_of-none :
      (kv : PetKv crc config pre) (key : ℕ)
      → Search.get crc kv.dict key ≡ done (0, false)
      → value_of kv key ≡ done none
  unfolding value_of get
  value_of-none kv key g = rw g refl

  -- A key is stored with a word, or is missing.
  pub dict-cases :
      (kv : PetKv crc config pre) (key : ℕ)
      → IsStore kv
      → ((word : ℕ) × (Search.get crc kv.dict key ≡ done (word, true)))
        ⊎ (Search.get crc kv.dict key ≡ done (0, false))
  dict-cases kv key v = elim (get-cases crc v.index key) [
    | inl (p, id, s) ↦ inl (_, get-Stored crc v.index key p id s)
    | inr a ↦ inr (get-Absent crc v.index key a)
  ]
