-- ===== src/PetKv/Written.antt =====
-- What the first half of `Update` does: a new slab with the value, and every other value as it was.
use pet_ps.Common.{
  ℕ, ◌+◌, ◌-◌, ◌*◌, ◌%◌, ◌^◌, ◌<◌, ◌≤◌, Bool, true, false, some, List, length, ◌==◌, if◌then◌else◌,
  ◌≡◌, ◌≢◌, refl, ap, ◌∙◌, arith, inl, inr, subst,
}
use pet_ps.Common.Bytes.{
  Memory, Apart, read_bytes, read_int, write_bytes, read_bytes-write-Apart, read_int-write-Apart,
}
use pet_ps.KvData.{Config, shm_malloc_offset, set_shm_malloc_offset}
use pet_ps.KvData.Fields.{IsLayout, shm_malloc_offset-set_some}
use pet_ps.Common.Pow.{pow_add}
use pet_ps.Pool.{chunk_size}
use pet_ps.MemoryPool.{MemoryPool}
use pet_ps.MemoryPool.Invariant.{IsPool, taken}
use pet_ps.MemoryPool.Sized.{meta_data_size}
use pet_ps.MemoryPool.Slabs.{Slab, Slab-Keeps, Slab-place, slabs-Apart, entry-inside, taken-InUse}
use pet_ps.MemoryPool.Placement.{meta_of, Placed}
use pet_ps.PetKv.Store.{sized}

-- The memory and the pool after `New` and `memcpy`.
module _ (perfect : Bool) (pre : ℕ) (p : MemoryPool) (memory : Memory) (log : List ℕ) (s : ℕ)
    (r : MemoryPool × Memory × ℕ) (v : IsPool p) (a : Placed perfect p memory (length log) s r)
    (s_positive : 0 < s) where
  abbrev pub meta : ℕ
  meta = meta_of perfect

  abbrev pub written : Memory
  written = write_bytes r.1 r.2 log

  -- The region of a value that was there before.
  pub Slab-Apart :
      (x n : ℕ)
      → Slab meta p x n
      → Slab meta r.0 x n × Apart (x - meta) (meta + n) (r.2 - meta) s × (meta ≤ x) × (x ≢ r.2)
  Slab-Apart x n t =
      let still : taken r.0 t.chunk t.id ≡ true = a.reads t.chunk t.id ∙ stays t in
      let t' = Slab-Keeps meta p r.0 x n t a.keeps still in
      let (place, room) = Slab-place meta p r.0 x n t a.keeps in
      let new = a.slab in
      let inside : t.chunk < r.0.nr_chunks = rw a.keeps.num t.inside in
      let (u, l) = taken-InUse r.0 a.sound t.chunk t.id inside still in
      let positive : 0 < (r.0.chunks t.chunk).slab_size = u.sound.slab in
      elim (slabs-Apart r.0 a.sound t.chunk t.id new.chunk new.id inside new.inside still
        new.held) [
          | inl (e, e') ↦
              let clash : taken p new.chunk new.id ≡ true =
                subst (λ (i : ℕ). taken p i new.id ≡ true) e
                  (subst (λ (q : ℕ). taken p t.chunk q ≡ true) e' t.held) in
              absurd (cc (clash, a.free_before))
          | inr apart ↦
              let far : Apart (x - meta) (meta + n) (r.2 - meta) s =
                ground (arith, apart, place, room, new.place, a.size) in
              (
                t',
                far,
                omega (arith, place),
                λ e. absurd (
                    ground
                      (arith, apart, place, e, new.place, new.room, positive, a.size, s_positive)),
              )
        ]
    where
      stays :
          (t : Slab meta p x n)
          → (if a.slab.chunk == t.chunk
              then if a.slab.id == t.id then true else taken p t.chunk t.id
              else taken p t.chunk t.id)
            ≡ true
      stays t = ground (arith, t.held)

  fits : meta + length log ≤ s
  fits = omega (arith, a.slab.room, a.size)

  starts : meta ≤ r.2
  starts = omega (arith, a.slab.place)

  -- What another value's reader sees.
  pub bytes_kept :
      (x n : ℕ)
      → meta ≤ x
      → Apart (x - meta) (meta + n) (r.2 - meta) s
      → read_bytes written x n ≡ read_bytes memory x n
  bytes_kept x n le far =
      read_bytes-write-Apart r.1 r.2 log x n (ground (arith, far, fits, le, starts))
      ∙ a.bytes x n (ground (arith, far, le))

  pub size_kept :
      (x n : ℕ)
      → meta ≤ x
      → Apart (x - meta) (meta + n) (r.2 - meta) s
      → perfect ≡ false
      → read_int written (x - meta_data_size) ≡ read_int memory (x - meta_data_size)
  size_kept x n le far e =
      let m : meta ≡ meta_data_size = ap meta_of e in
      read_int-write-Apart r.1 r.2 log (x - meta_data_size)
        (ground (arith, far, fits, le, starts, m))
      ∙ a.ints (x - meta_data_size) (ground (arith, far, le, m))

  pub size_written : perfect ≡ false → read_int written (r.2 - meta_data_size) ≡ length log
  size_written e =
      let m : meta ≡ meta_data_size = ap meta_of e in
      read_int-write-Apart r.1 r.2 log (r.2 - meta_data_size) (inl (omega (arith, starts, m)))
      ∙ a.recorded e

-- The sizes of the values.
pub sized-kept :
    (perfect : Bool) (pre : ℕ) (m m' : Memory) (x : ℕ)
    → (perfect ≡ false → read_int m' (x - meta_data_size) ≡ read_int m (x - meta_data_size))
    → sized perfect pre m' x ≡ sized perfect pre m x
sized-kept true pre m m' x h = refl
sized-kept false pre m m' x h = h refl

pub sized-written :
    (perfect : Bool) (pre : ℕ) (m : Memory) (x n : ℕ)
    → (perfect ≡ true → pre ≡ n)
    → (perfect ≡ false → read_int m (x - meta_data_size) ≡ n)
    → sized perfect pre m x ≡ n
sized-written true pre m x n h k = h refl
sized-written false pre m x n h k = k refl

-- A pointer of the pool is read back from the word that stores it.
pub pointer_read :
    {b : ℕ} {c : Config} (layout : IsLayout b c) (d ptr bytes : ℕ)
    → ptr ≤ bytes
    → bytes + 16 ≤ 2 ^ (b + 3)
    → bytes + 16 ≤ 2 ^ 64
    → ptr % 8 ≡ 0
    → shm_malloc_offset c (set_shm_malloc_offset c d (some ptr)) ≡ some ptr
pointer_read {b} layout d ptr bytes inside covers small aligned =
    shm_malloc_offset-set_some layout d ptr (omega (arith, pow_add b 3)) (omega arith)
    ∙ ap some (omega arith)

pub Slab-bound :
    (meta : ℕ) (p : MemoryPool) (ptr n : ℕ)
    → IsPool p
    → Slab meta p ptr n
    → (16 ≤ ptr) × (ptr ≤ p.nr_chunks * chunk_size)
Slab-bound meta p ptr n v s =
    let (u, l) = taken-InUse p v s.chunk s.id s.inside s.held in
    let (low, high) = entry-inside s.chunk s.id (p.chunks s.chunk) u.fits l in
    (omega (arith, low, s.place), omega (arith, high, s.place, s.room, s.inside))
