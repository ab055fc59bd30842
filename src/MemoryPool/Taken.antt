-- ===== src/MemoryPool/Taken.antt =====
-- What `NewInternal` hands out of one chunk.
use pet_ps.Common.{
  ℕ, ◌+◌, ◌*◌, ◌%◌, ◌^◌, ◌<◌, Bool, true, false, Option, none, some, ltb, ◌==◌, if◌then◌else◌, ◌≡◌,
  refl, ap, ◌∙◌, arith, Bool-cases, Option-cases, inl, inr, ==→eq, lt→ltb, subst,
}
use pet_ps.BitMap
use pet_ps.Pool.{Chunk, chunk_size, entry, malloc, recovery, full, take_entry}
use pet_ps.Pool.Slab.{IsMalloced, malloc-IsMalloced}
use pet_ps.MemoryPool.{MemoryPool}
use pet_ps.MemoryPool.Invariant.{InUse, Serves, IsPool, taken_in, taken}

pub recovery_recovered : (c : Chunk) → c.is_recovered ≡ true → recovery c ≡ c
unfolding recovery
recovery_recovered c e =
    ap
      (λ (b : Bool).
        if b
        then c
        else record c { allocated_entries = BitMap.number_of_ones c.bitmap; is_recovered = true })
      e

-- What an allocation does: the pointer is that of an entry that was free and now alone is taken, in
-- a chunk that serves the size.
pub record Allocated (p : MemoryPool) (slab_size : ℕ) (r : MemoryPool × ℕ) : Type 0 where
  pub sound : IsPool r.0
  pub chunk : ℕ
  pub id : ℕ
  pub serves : Serves r.0 chunk slab_size
  pub inside : id < (r.0.chunks chunk).nr_entries
  pub place : r.1 ≡ entry (chunk * chunk_size) (r.0.chunks chunk) id
  pub free_before : taken p chunk id ≡ false
  pub reads :
      (j q : ℕ)
      → taken r.0 j q
        ≡ (if chunk == j then (if id == q then true else taken p j q) else taken p j q)
  pub counted : r.0.total_malloc ≡ (p.total_malloc + 1) % 2 ^ 64

take_entry-kept :
    (chunk_start : ℕ) (c : Chunk) (r : BitMap.BitMap × Option ℕ)
    → ((take_entry chunk_start c r).0.is_used ≡ c.is_used)
      × ((take_entry chunk_start c r).0.is_recovered ≡ c.is_recovered)
unfolding take_entry
take_entry-kept chunk_start c (m, none) = (refl, refl)
take_entry-kept chunk_start c (m, some id) = (refl, refl)

-- `Malloc` in a chunk that is in use and not full.
pub malloc_some :
    (chunk_start : ℕ) (c : Chunk)
    → InUse c
    → full c ≡ false
    → let r = malloc chunk_start c in
      (ptr : ℕ) × (r.1 ≡ some ptr)
      × IsMalloced chunk_start c (r.0, some ptr)
      × (r.0.is_used ≡ true)
      × (r.0.is_recovered ≡ true)
unfolding malloc full
malloc_some chunk_start c u open_chunk =
    let r = malloc chunk_start c in
    let same = recovery_recovered c u.recovered in
    let m : IsMalloced chunk_start c r =
      subst (λ (x : Chunk). IsMalloced chunk_start x r) same
        (malloc-IsMalloced chunk_start c u.sound) in
    let keep = take_entry-kept chunk_start (recovery c) (BitMap.set_zero_pos (recovery c).bitmap) in
    elim (Option-cases r.1) [
      | inl e ↦
          let m' : IsMalloced chunk_start c (r.0, none) =
            subst (λ (o : Option ℕ). IsMalloced chunk_start c (r.0, o)) e m in
          elim u.sound.allocated [
            | inl never ↦ absurd (cc (never, u.recovered))
            | inr all ↦ absurd (ground (arith, m'.0, all, open_chunk))
          ]
      | inr (ptr, e) ↦ (
        ptr,
        e,
        subst (λ (o : Option ℕ). IsMalloced chunk_start c (r.0, o)) e m,
        keep.0 ∙ ap (λ (x : Chunk). x.is_used) same ∙ u.used,
        keep.1 ∙ ap (λ (x : Chunk). x.is_recovered) same ∙ u.recovered,
      )
    ]

pub entry-congr :
    (chunk_start : ℕ) (c c' : Chunk) (id : ℕ)
    → c'.slab_size ≡ c.slab_size
    → c'.nr_entries ≡ c.nr_entries
    → entry chunk_start c id ≡ entry chunk_start c' id
unfolding entry
entry-congr chunk_start c c' id size entries = rw (entry, size, entries) refl

pub taken_free :
    (c : Chunk) (id : ℕ) → c.is_used ≡ true → BitMap.get c.bitmap id ≡ false → taken_in c id ≡ false
taken_free c id used free = elim (Bool-cases (ltb id c.nr_entries)) [
  | inl e ↦ rw (used, e, free) refl
  | inr e ↦ rw (used, e) refl
]

pub taken_more :
    (c c' : Chunk) (id q : ℕ)
    → id < c.nr_entries
    → c.is_used ≡ true
    → c'.is_used ≡ true
    → c'.nr_entries ≡ c.nr_entries
    → BitMap.get c'.bitmap q ≡ (if id == q then true else BitMap.get c.bitmap q)
    → taken_in c' q ≡ (if id == q then true else taken_in c q)
taken_more c c' id q l used used' entries reads = elim (Bool-cases (id == q)) [
  | inl e ↦
      let here : BitMap.get c'.bitmap q ≡ true = rw e at reads in
      let inside : ltb q c'.nr_entries ≡ true =
        lt→ltb q c'.nr_entries (omega (arith, l, entries, ==→eq id q e)) in
      rw (e, used', inside, here) refl
  | inr e ↦
      let here : BitMap.get c'.bitmap q ≡ BitMap.get c.bitmap q = rw e at reads in
      rw (e, used, used', entries, here) refl
]
