-- ===== src/MemoryPool/Slabs.antt =====
-- The slabs of a well-formed pool, by the pointers that the pool hands out: where they lie, and what
-- allocation and release do to them.
use pet_ps.Common.{
  ℕ, suc, ◌+◌, ◌*◌, ◌<◌, ◌≤◌, true, ◌≡◌, ◌≢◌, refl, ◌∙◌, arith, inl, inr, ◌⊎◌, eq_cases, subst,
}
use pet_ps.Common.Bytes.{Apart}
use native.Mathlib.Nat.{mul-le-mul_right}
use pet_ps.Pool.{Chunk, chunk_size, entry, header_size}
use pet_ps.Pool.Cut.{Fits, entry-disjoint}
use pet_ps.MemoryPool.{MemoryPool}
use pet_ps.MemoryPool.Invariant.{InUse, IsPool, taken}
use pet_ps.MemoryPool.Release.{taken_true, in_use}
use pet_ps.MemoryPool.Geometry.{Keeps}

-- An allocated slab with room for `n` bytes behind the pointer that was handed out, which is `meta`
-- bytes behind its start.
pub record Slab (meta : ℕ) (p : MemoryPool) (ptr n : ℕ) : Type 0 where
  pub chunk : ℕ
  pub id : ℕ
  pub inside : chunk < p.nr_chunks
  pub held : taken p chunk id ≡ true
  pub place : ptr ≡ entry (chunk * chunk_size) (p.chunks chunk) id + meta
  pub room : meta + n ≤ (p.chunks chunk).slab_size

pub entry-inside :
    (i id : ℕ) (c : Chunk)
    → Fits c.slab_size c.nr_entries
    → id < c.nr_entries
    → (i * chunk_size + 16 ≤ entry (i * chunk_size) c id)
      × (entry (i * chunk_size) c id + c.slab_size ≤ suc i * chunk_size)
unfolding entry header_size
entry-inside i id c fits l =
    let top = mul-le-mul_right {m = suc id} {n = c.nr_entries} c.slab_size l in
    (omega arith, omega (arith, top, fits.inside))

module _ (p : MemoryPool) (v : IsPool p) where
  pub taken-InUse :
      (i id : ℕ)
      → i < p.nr_chunks
      → taken p i id ≡ true
      → InUse (p.chunks i) × (id < (p.chunks i).nr_entries)
  taken-InUse i id l h =
      let (used, inside, bit) = taken_true (p.chunks i) id h in (in_use p i v l used, inside)

  same_chunk :
      (i a b : ℕ)
      → InUse (p.chunks i)
      → a < (p.chunks i).nr_entries
      → b < (p.chunks i).nr_entries
      → a ≢ b
      → Apart
          (entry (i * chunk_size) (p.chunks i) a)
          (p.chunks i).slab_size
          (entry (i * chunk_size) (p.chunks i) b)
          (p.chunks i).slab_size
  same_chunk i a b u la lb ne =
      let c = p.chunks i in
      let less : (a < b) ⊎ (b < a) = ground (arith, ne) in
      elim less [
        | inl l ↦ inl (entry-disjoint (i * chunk_size) c a b u.fits l lb).1
        | inr l ↦ inr (entry-disjoint (i * chunk_size) c b a u.fits l la).1
      ]

  -- Two allocated slabs are the same, or lie apart.
  pub slabs-Apart :
      (i id j q : ℕ)
      → i < p.nr_chunks
      → j < p.nr_chunks
      → taken p i id ≡ true
      → taken p j q ≡ true
      → ((i ≡ j) × (id ≡ q))
        ⊎ Apart
            (entry (i * chunk_size) (p.chunks i) id)
            (p.chunks i).slab_size
            (entry (j * chunk_size) (p.chunks j) q)
            (p.chunks j).slab_size
  slabs-Apart i id j q li lj hi hj =
      let (u, l) = taken-InUse i id li hi in
      let (w, m) = taken-InUse j q lj hj in
      elim (eq_cases i j) [
        | inr ne ↦
            let (a, b) = entry-inside i id (p.chunks i) u.fits l in
            let (c, d) = entry-inside j q (p.chunks j) w.fits m in
            let less : (i < j) ⊎ (j < i) = ground (arith, ne) in
            inr (elim less [
              | inl k ↦ inl (omega (arith, b, c, k))
              | inr k ↦ inr (omega (arith, a, d, k))
            ])
        | inl e ↦ elim (eq_cases id q) [
          | inl e' ↦ inl (e, e')
          | inr ne ↦
              let m' : q < (p.chunks i).nr_entries = rw e m in
              inr (
                subst
                  (λ (k : ℕ).
                    Apart (entry (i * chunk_size) (p.chunks i) id) (p.chunks i).slab_size
                      (entry (k * chunk_size) (p.chunks k) q) (p.chunks k).slab_size)
                  e (same_chunk i id q u l m' ne))
        ]
      ]

-- Where a slab lies in a pool of the same shape.
pub Slab-place :
    (meta : ℕ) (p q : MemoryPool) (ptr n : ℕ) (s : Slab meta p ptr n)
    → Keeps p q
    → (ptr ≡ entry (s.chunk * chunk_size) (q.chunks s.chunk) s.id + meta)
      × (meta + n ≤ (q.chunks s.chunk).slab_size)
unfolding entry header_size
Slab-place meta p q ptr n s k =
    let (used, inside, bit) = taken_true (p.chunks s.chunk) s.id s.held in
    let same = k.shape s.chunk used in
    (s.place ∙ rw (same.slab_size, same.nr_entries) refl, rw same.slab_size s.room)

-- A slab that stays allocated in a pool of the same shape keeps its pointer.
pub Slab-Keeps :
    (meta : ℕ) (p q : MemoryPool) (ptr n : ℕ) (s : Slab meta p ptr n)
    → Keeps p q
    → taken q s.chunk s.id ≡ true
    → Slab meta q ptr n
Slab-Keeps meta p q ptr n s k held =
    let (place, room) = Slab-place meta p q ptr n s k in
    record {
      chunk = s.chunk;
      id = s.id;
      inside = rw k.num s.inside;
      held = held;
      place = place;
      room = room;
    }

pub Slab-empty : (meta : ℕ) (p : MemoryPool) (ptr n : ℕ) → Slab meta p ptr n → Slab meta p ptr 0
Slab-empty meta p ptr n s = record {
  chunk = s.chunk;
  id = s.id;
  inside = s.inside;
  held = s.held;
  place = s.place;
  room = omega (arith, s.room);
}
