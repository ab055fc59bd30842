-- ===== src/MemoryPool/Invariant.antt =====
-- When a pool is well formed, and which of its entries are taken.
use pet_ps.Common.{
  ℕ, ◌<◌, ◌≤◌, Bool, true, false, ◌&&◌, some, List, count, ltb, ◌==◌, update, ◌≡◌, ap, ◌∙◌,
  Bool-cases, inl, inr, ◌⊎◌, ==→eq,
}
use pet_ps.BitMap
use pet_ps.Pool.{Chunk}
use pet_ps.Pool.Cut.{Fits}
use pet_ps.Pool.Slab.{IsChunk}
use pet_ps.MemoryPool.{MemoryPool}

-- A chunk in use, recovered, that fits.
pub record InUse (c : Chunk) : Type 0 where
  pub used : c.is_used ≡ true
  pub sound : IsChunk c
  pub fits : Fits c.slab_size c.nr_entries
  pub recovered : c.is_recovered ≡ true

-- The chunk is in use for a size.
abbrev pub Serves : MemoryPool → ℕ → ℕ → Type 0
Serves p i slab_size = (i < p.nr_chunks) × InUse (p.chunks i) × ((p.chunks i).slab_size ≡ slab_size)

pub record IsPool (p : MemoryPool) : Type 0 where
  pub state : (i : ℕ) → i < p.nr_chunks → ((p.chunks i).is_used ≡ false) ⊎ InUse (p.chunks i)
  pub idle :
      (i : ℕ) → 0 < count i p.free_chunks → (i < p.nr_chunks) × ((p.chunks i).is_used ≡ false)
  pub once : (i : ℕ) → count i p.free_chunks ≤ 1
  pub listed : (s i : ℕ) (l : List ℕ) → p.size_to_chunks s ≡ some l → 0 < count i l → Serves p i s
  pub last : (s i : ℕ) → p.size_to_last_used_chunk s ≡ some i → Serves p i s

-- Entry `q` of chunk `i` is allocated.
abbrev pub taken_in : Chunk → ℕ → Bool
taken_in c q = c.is_used && (ltb q c.nr_entries && BitMap.get c.bitmap q)

abbrev pub taken : MemoryPool → ℕ → ℕ → Bool
taken p i q = taken_in (p.chunks i) q

-- The pool with another chunk in place of chunk `i`.
abbrev pub replaced : MemoryPool → ℕ → Chunk → ℕ → MemoryPool
replaced p i c total = record p { chunks = update p.chunks i c; total_malloc = total }

-- A chunk in use for the same size in its place keeps the pool well formed.
module _ (p : MemoryPool) (i : ℕ) (c : Chunk) (total : ℕ) (v : IsPool p) (old : InUse (p.chunks i))
    (new : InUse c) (same : c.slab_size ≡ (p.chunks i).slab_size) where
  kept : (j s : ℕ) → Serves p j s → Serves (replaced p i c total) j s
  kept j s (l, u, z) = elim (Bool-cases (i == j)) [
    | inr e ↦ rw e (l, u, z)
    | inl e ↦ rw e (l, new, same ∙ ap (λ (x : ℕ). (p.chunks x).slab_size) (==→eq i j e) ∙ z)
  ]

  pub replaced-IsPool : IsPool (replaced p i c total)
  replaced-IsPool = record {
    state =
        λ j l. elim (Bool-cases (i == j)) [ inl e ↦ rw e (inr new) | inr e ↦ rw e (v.state j l) ];
    idle = λ j h.
        let (l, z) = v.idle j h in
        elim (Bool-cases (i == j)) [
          | inl e ↦
              let clash : (p.chunks i).is_used ≡ false = rw (==→eq i j e) z in
              absurd (cc (clash, old.used))
          | inr e ↦ rw e (l, z)
        ];
    once = v.once;
    listed = λ s j l e h. kept j s (v.listed s j l e h);
    last = λ s j e. kept j s (v.last s j e);
  }
