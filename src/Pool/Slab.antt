-- ===== src/Pool/Slab.antt =====
-- Allocation and release of slabs in a chunk, and the recovery of its count after a restart.
use pet_ps.Common.{
  ℕ, ◌+◌, ◌-◌, ◌*◌, ◌/◌, ◌<◌, Bool, true, false, if◌then◌else◌, ◌≡◌, refl, sym, ap, ◌∙◌, arith,
  Bool-cases, inl, inr, ◌⊎◌, ◌==◌, Option, some, none, subst,
}
use native.Mathlib.Nat.{mul-div_cancel}
use pet_ps.BitMap
use pet_ps.BitMap.{BitMap, number_of_ones}
use pet_ps.BitMap.Words
use pet_ps.BitMap.Words.{clear-IsValid, get-clear}
use pet_ps.BitMap.Ones.{Allocates, set_zero_pos-Allocates, number_of_ones-clear}
use pet_ps.BitMap.Positions.{set_found, set_zero_pos-first_zero_pos}
use pet_ps.Pool.{Chunk, recovery, entry, entry_id, data_start, malloc, free_slab, take_entry}

-- A chunk in use. What is not persistent agrees with the bit map once it has been recovered.
pub record IsChunk (c : Chunk) : Type 0 where
  pub map : Words.IsValid c.bitmap
  pub entries : c.bitmap.n ≡ c.nr_entries
  pub slab : 0 < c.slab_size
  pub allocated : (c.is_recovered ≡ false) ⊎ (c.allocated_entries ≡ number_of_ones c.bitmap)

set_zero_pos-n : (m : BitMap) → Words.IsValid m → (BitMap.set_zero_pos m).0.n ≡ m.n
set_zero_pos-n m v = rw (set_zero_pos-first_zero_pos m v) (set_found-n m (BitMap.first_zero_pos m))
  where
    set_found-n : (m : BitMap) (r : Option ℕ) → (set_found m r).0.n ≡ m.n
    set_found-n m none = refl
    set_found-n m (some p) = unfold BitMap.set in refl

-- What `Recovery` leaves alone.
pub record SameSlabs (c d : Chunk) : Type 0 where
  pub bitmap : c.bitmap ≡ d.bitmap
  pub slab_size : c.slab_size ≡ d.slab_size
  pub nr_entries : c.nr_entries ≡ d.nr_entries
  pub is_used : c.is_used ≡ d.is_used

pub recovery-cases :
    (c : Chunk)
    → ((c.is_recovered ≡ true) × (recovery c ≡ c))
      ⊎ (recovery c ≡ record c { allocated_entries = number_of_ones c.bitmap; is_recovered = true })
unfolding recovery
recovery-cases c =
    let counted : Chunk = record c {
      allocated_entries = number_of_ones c.bitmap;
      is_recovered = true;
    } in
    elim (Bool-cases c.is_recovered) [
      | inl e ↦ inl (e, ap (λ (b : Bool). if b then c else counted) e)
      | inr e ↦ inr (ap (λ (b : Bool). if b then c else counted) e)
    ]

-- After `Recovery` of a well-formed chunk, whether or not it was recovered before, the chunk is well
-- formed, its count is the number of set bits, and the bit map, the size of a slab, the number of
-- entries and the mark that the chunk is in use are as before.
pub recovery-IsChunk :
    (c : Chunk)
    → IsChunk c
    → IsChunk (recovery c)
      × ((recovery c).allocated_entries ≡ number_of_ones c.bitmap)
      × SameSlabs (recovery c) c
recovery-IsChunk c v = elim (recovery-cases c) [
  | inl (done_before, e) ↦
      let count_it : c.allocated_entries ≡ number_of_ones c.bitmap = elim v.allocated [
        | inl never ↦ absurd (cc (done_before, never))
        | inr same ↦ same
      ] in
      subst
        (λ (x : Chunk). IsChunk x × (x.allocated_entries ≡ number_of_ones c.bitmap) × SameSlabs x c)
        (sym e)
        (v, count_it, record { bitmap = refl; slab_size = refl; nr_entries = refl; is_used = refl })
  | inr e ↦
      subst
        (λ (x : Chunk). IsChunk x × (x.allocated_entries ≡ number_of_ones c.bitmap) × SameSlabs x c)
        (sym e)
        (
          record { map = v.map; entries = v.entries; slab = v.slab; allocated = inr refl },
          refl,
          record { bitmap = refl; slab_size = refl; nr_entries = refl; is_used = refl },
        )
]

-- `EntryId` finds the entry of a pointer that `Entry` gave.
pub entry_id-entry :
    (chunk_start : ℕ) (c : Chunk) (id : ℕ)
    → 0 < c.slab_size
    → entry_id chunk_start c (entry chunk_start c id) ≡ id
unfolding entry_id entry
entry_id-entry chunk_start c id pos =
    let start = data_start chunk_start c in
    let distance : start + id * c.slab_size - start ≡ id * c.slab_size = omega arith in
    ap (λ (x : ℕ). x / c.slab_size) distance ∙ mul-div_cancel id pos

-- What `Malloc` returns: the pointer of an entry that was free and now is the only one that has
-- changed; or none, when every entry is taken.
abbrev pub IsMalloced : ℕ → Chunk → Chunk × Option ℕ → Type 0
IsMalloced chunk_start c (c', none) = (number_of_ones c.bitmap ≡ c.nr_entries) × IsChunk c'
IsMalloced chunk_start c (c', some ptr) =
    (id : ℕ) × (ptr ≡ entry chunk_start c id)
    × (id < c.nr_entries)
    × (BitMap.get c.bitmap id ≡ false)
    × ((q : ℕ) → BitMap.get c'.bitmap q ≡ (if id == q then true else BitMap.get c.bitmap q))
    × (c'.allocated_entries ≡ number_of_ones c.bitmap + 1)
    × (c'.slab_size ≡ c.slab_size)
    × (c'.nr_entries ≡ c.nr_entries)
    × IsChunk c'

take_entry-IsMalloced :
    (chunk_start : ℕ) (c : Chunk) (r : BitMap × Option ℕ)
    → IsChunk c
    → c.allocated_entries ≡ number_of_ones c.bitmap
    → r.0.n ≡ c.bitmap.n
    → Allocates c.bitmap r
    → IsMalloced chunk_start c (take_entry chunk_start c r)
unfolding take_entry
take_entry-IsMalloced chunk_start c (m, none) v e n (same, all) = (
  all ∙ v.entries,
  record {
    map = subst Words.IsValid (sym same) v.map;
    entries = n ∙ v.entries;
    slab = v.slab;
    allocated = inr (e ∙ ap number_of_ones (sym same));
  },
)
take_entry-IsMalloced chunk_start c (m, some id) v e n (l, free, before, reads, more, map) = (
  id,
  refl,
  omega (arith, l, v.entries),
  free,
  reads,
  omega (arith, e),
  refl,
  refl,
  record {
    map = map;
    entries = n ∙ v.entries;
    slab = v.slab;
    allocated = inr (omega (arith, e, more));
  },
)

-- `Malloc` in a well-formed chunk, recovered or not, returns the pointer of a free entry inside the
-- chunk, marks that entry alone as taken and counts it; it returns none only when every entry is
-- taken. The chunk stays well formed.
pub malloc-IsMalloced :
    (chunk_start : ℕ) (c : Chunk)
    → IsChunk c
    → IsMalloced chunk_start (recovery c) (malloc chunk_start c)
unfolding malloc
malloc-IsMalloced chunk_start c v =
    let c' = recovery c in
    let (v', count_it, same) = recovery-IsChunk c v in
    take_entry-IsMalloced chunk_start c' (BitMap.set_zero_pos c'.bitmap) v'
      (count_it ∙ ap number_of_ones (sym same.bitmap)) (set_zero_pos-n c'.bitmap v'.map)
      (set_zero_pos-Allocates c'.bitmap v'.map)

-- `Free` of the pointer of a taken entry in a well-formed chunk, recovered or not, marks that entry
-- alone as free and takes it from the count, so that the count is again the number of set bits.
pub free_slab-entry :
    (chunk_start : ℕ) (c : Chunk) (id : ℕ)
    → IsChunk c
    → id < c.nr_entries
    → BitMap.get c.bitmap id ≡ true
    → let c' = free_slab chunk_start c (entry chunk_start (recovery c) id) in
      IsChunk c'
      × ((q : ℕ) → BitMap.get c'.bitmap q ≡ (if id == q then false else BitMap.get c.bitmap q))
      × (c'.allocated_entries + 1 ≡ number_of_ones c.bitmap)
unfolding free_slab
free_slab-entry chunk_start c id v l taken =
    let r = recovery c in
    let (v', count_it, same) = recovery-IsChunk c v in
    let place = entry_id-entry chunk_start r id v'.slab in
    let inside : id < r.bitmap.n = omega (arith, l, v'.entries, same.nr_entries) in
    let word = v'.map.words (id / 64) (omega (arith, v'.map.whole)) in
    let taken' : BitMap.get r.bitmap id ≡ true = rw same.bitmap taken in
    let down = number_of_ones-clear r.bitmap id v'.map inside taken' in
    let ones = ap number_of_ones same.bitmap in
    rw place (
      record {
        map = clear-IsValid r.bitmap id v'.map;
        entries = (unfold BitMap.clear in v'.entries);
        slab = v'.slab;
        allocated = inr (omega (arith, count_it, down, ones));
      },
      λ q.
          get-clear r.bitmap id q word
          ∙ ap (λ (m : BitMap). if id == q then false else BitMap.get m q) same.bitmap,
      omega (arith, count_it, down, ones),
    )
