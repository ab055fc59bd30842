-- ===== src/MemoryPool/Release.antt =====
-- Release to the pool.
use pet_ps.Common.{
  ℕ, suc, ◌+◌, ◌-◌, ◌*◌, ◌/◌, ◌%◌, ◌^◌, ◌<◌, Bool, true, false, ltb, ◌==◌, if◌then◌else◌, ◌≡◌, refl,
  sym, ap, ◌∙◌, arith, Bool-cases, inl, inr, ==→eq, lt→ltb, ltb→lt, subst,
}
use native.Mathlib.Nat.{mul-le-mul_right}
use pet_ps.BitMap
use pet_ps.Pool.{Chunk, chunk_size, entry, recovery, free_slab}
use pet_ps.Pool.Slab.{IsChunk, free_slab-entry}
use pet_ps.MemoryPool.{MemoryPool, free}
use pet_ps.MemoryPool.Invariant.{InUse, IsPool, taken_in, taken, replaced, replaced-IsPool}
use pet_ps.MemoryPool.Taken.{recovery_recovered, taken_free}

-- `GetChunkID` finds the chunk of a pointer.
pub entry-chunk :
    (i id : ℕ) (c : Chunk)
    → InUse c
    → id < c.nr_entries
    → entry (i * chunk_size) c id / chunk_size ≡ i
unfolding entry
entry-chunk i id c u l =
    let top = mul-le-mul_right {m = suc id} {n = c.nr_entries} c.slab_size l in
    omega (arith, top, u.fits.inside, u.sound.slab)

pub taken_true :
    (c : Chunk) (id : ℕ)
    → taken_in c id ≡ true
    → (c.is_used ≡ true) × (id < c.nr_entries) × (BitMap.get c.bitmap id ≡ true)
taken_true c id h = elim (Bool-cases c.is_used) [
  | inr e ↦ absurd (cc (h, unused e))
  | inl e ↦ elim (Bool-cases (ltb id c.nr_entries)) [
    | inr out ↦ absurd (cc (h, outside out))
    | inl inside ↦ (e, ltb→lt _ _ inside, rw (e, inside) at h)
  ]
]
  where
    unused : c.is_used ≡ false → taken_in c id ≡ false
    unused e = rw e refl

    outside : ltb id c.nr_entries ≡ false → taken_in c id ≡ false
    outside e = elim (Bool-cases c.is_used) [ inl u ↦ rw (u, e) refl | inr u ↦ rw u refl ]

free_slab-kept :
    (chunk_start : ℕ) (c : Chunk) (ptr : ℕ)
    → let c' = free_slab chunk_start c ptr in
      let r = recovery c in
      (c'.is_used ≡ r.is_used)
      × (c'.is_recovered ≡ r.is_recovered)
      × (c'.slab_size ≡ r.slab_size)
      × (c'.nr_entries ≡ r.nr_entries)
unfolding free_slab
free_slab-kept chunk_start c ptr = (refl, refl, refl, refl)

pub in_use :
    (p : MemoryPool) (i : ℕ)
    → IsPool p
    → i < p.nr_chunks
    → (p.chunks i).is_used ≡ true
    → InUse (p.chunks i)
in_use p i v l used = elim (v.state i l) [ inl idle ↦ absurd (cc (idle, used)) | inr u ↦ u ]

taken_less :
    (c c' : Chunk) (id q : ℕ)
    → c.is_used ≡ true
    → c'.is_used ≡ true
    → c'.nr_entries ≡ c.nr_entries
    → BitMap.get c'.bitmap q ≡ (if id == q then false else BitMap.get c.bitmap q)
    → taken_in c' q ≡ (if id == q then false else taken_in c q)
taken_less c c' id q used used' entries reads = elim (Bool-cases (id == q)) [
  | inl e ↦ rw e (taken_free c' q used' (rw e at reads))
  | inr e ↦
      let here : BitMap.get c'.bitmap q ≡ BitMap.get c.bitmap q = rw e at reads in
      rw (e, used, used', entries, here) refl
]

-- `Free` of a taken entry's pointer in a chunk in use.
free_in_use :
    (start : ℕ) (c : Chunk) (id : ℕ)
    → InUse c
    → id < c.nr_entries
    → BitMap.get c.bitmap id ≡ true
    → let c' = free_slab start c (entry start c id) in
      InUse c'
      × (c'.slab_size ≡ c.slab_size)
      × ((q : ℕ) → taken_in c' q ≡ (if id == q then false else taken_in c q))
free_in_use start c id u inside held =
    let same = recovery_recovered c u.recovered in
    let (used, again, size, entries) = free_slab-kept start c (entry start c id) in
    let used' = used ∙ ap (λ (x : Chunk). x.is_used) same ∙ u.used in
    let size' = size ∙ ap (λ (x : Chunk). x.slab_size) same in
    let entries' = entries ∙ ap (λ (x : Chunk). x.nr_entries) same in
    let (sound, reads, _) =
      subst
        (λ (x : Chunk).
          let c' = free_slab start c (entry start x id) in
          IsChunk c'
          × ((q : ℕ) → BitMap.get c'.bitmap q ≡ (if id == q then false else BitMap.get c.bitmap q))
          × (c'.allocated_entries + 1 ≡ BitMap.number_of_ones c.bitmap))
        same (free_slab-entry start c id u.sound inside held) in
    (
      record {
        used = used';
        sound = sound;
        fits = rw (size', entries') u.fits;
        recovered = again ∙ ap (λ (x : Chunk). x.is_recovered) same ∙ u.recovered;
      },
      size',
      λ q. taken_less c (free_slab start c (entry start c id)) id q u.used used' entries' (reads q),
    )

-- `Free` of the pointer of an allocated entry of a well-formed pool succeeds, releases that entry
-- alone, and keeps the pool well formed.
pub free-taken :
    (p : MemoryPool) (i id : ℕ)
    → IsPool p
    → i < p.nr_chunks
    → taken p i id ≡ true
    → let r = free p (entry (i * chunk_size) (p.chunks i) id) in
      (r.1 ≡ true)
      × IsPool r.0
      × ((j q : ℕ)
          → taken r.0 j q
            ≡ (if i == j then (if id == q then false else taken p j q) else taken p j q))
unfolding free
free-taken p i id v l h =
    let c = p.chunks i in
    let start = i * chunk_size in
    let ptr = entry start c id in
    let c' = free_slab start c ptr in
    let (used, inside, held) = taken_true c id h in
    let u = in_use p i v l used in
    let same = recovery_recovered c u.recovered in
    let facts = free_in_use start c id u inside held in
    let total = (p.total_malloc + (2 ^ 64 - 1)) % 2 ^ 64 in
    let run : free p ptr ≡ (replaced p i c' total, true) =
      rw (free, entry-chunk i id c u inside, lt→ltb i p.nr_chunks l) refl in
    subst
      (λ (r : MemoryPool × Bool).
        (r.1 ≡ true)
        × IsPool r.0
        × ((j q : ℕ)
            → taken r.0 j q
              ≡ (if i == j then (if id == q then false else taken p j q) else taken p j q)))
      (sym run)
      (
        refl,
        replaced-IsPool p i c' total v u facts.0 facts.1,
        λ j q. elim (Bool-cases (i == j)) [
          | inr e ↦ rw e refl
          | inl e ↦ rw (e, sym (==→eq i j e)) (facts.2 q)
        ],
      )
