-- ===== src/SimpleMalloc/Cursor.antt =====
-- What `New` hands out.
use pet_ps.Common.{
  ℕ, ◌+◌, ◌/◌, ◌%◌, ◌^◌, ◌<◌, ◌≤◌, true, false, ltb, leb, update, ◌≡◌, refl, arith, Bool-cases, inl,
  inr, ◌⊎◌, eq→==,
}
use pet_ps.Common.Outcome.{done, Returns}
use pet_ps.SimpleMalloc.{SimpleMalloc, new, get_malloc_size}

-- The memory has room for two slabs, and the cursor stays inside it.
pub record IsCursor (m : SimpleMalloc) : Type 0 where
  pub slab : 0 < m.slab_size
  pub room : m.slab_size + m.slab_size ≤ m.memory_size
  pub bound : m.memory_size < 2 ^ 63
  pub inside : m.allocated ≤ m.memory_size

pub record Handed (m : SimpleMalloc) (r : SimpleMalloc × ℕ) : Type 0 where
  pub sound : IsCursor r.0
  pub fits : r.1 + m.slab_size ≤ m.memory_size
  pub size : get_malloc_size r.0 r.1 ≡ m.slab_size
  pub moved :
      ((r.1 ≡ m.allocated) × (r.0.allocated ≡ r.1 + m.slab_size))
      ⊎ ((r.1 ≡ 0) × (r.0.allocated ≡ 0) × (m.memory_size ≤ m.allocated + m.slab_size))

-- The cursor after `New` at an offset.
abbrev pub handed : SimpleMalloc → ℕ → ℕ → SimpleMalloc
handed m offset allocated = record m {
  allocated = allocated;
  nr_malloc = (m.nr_malloc + 1) % 2 ^ 64;
  meta_data_block = update m.meta_data_block (offset / m.slab_size) m.slab_size;
}

new-wraps :
    (m : SimpleMalloc)
    → IsCursor m
    → m.memory_size ≤ m.allocated + m.slab_size
    → new m m.slab_size ≡ done (handed m 0 0, 0)
unfolding new
new-wraps m v h =
    let wraps : leb m.memory_size (m.allocated + m.slab_size) ≡ true = ground (arith, h) in
    let fits : ltb m.memory_size (0 + m.slab_size) ≡ false = ground (arith, v.room) in
    rw (wraps, eq→== m.slab_size m.slab_size refl, fits) refl

pub new-goes :
    (m : SimpleMalloc)
    → IsCursor m
    → m.allocated + m.slab_size < m.memory_size
    → new m m.slab_size ≡ done (handed m m.allocated (m.allocated + m.slab_size), m.allocated)
unfolding new
new-goes m v h =
    let goes : leb m.memory_size (m.allocated + m.slab_size) ≡ false = ground (arith, h) in
    let fits : ltb m.memory_size (m.allocated + m.slab_size) ≡ false = ground (arith, h) in
    let same : (m.allocated + m.slab_size) % 2 ^ 64 ≡ m.allocated + m.slab_size =
      omega (arith, h, v.bound) in
    rw (goes, eq→== m.slab_size m.slab_size refl, fits, same) refl

handed-size :
    (m : SimpleMalloc) (offset allocated : ℕ)
    → get_malloc_size (handed m offset allocated) offset ≡ m.slab_size
unfolding get_malloc_size
handed-size m offset allocated = rw (eq→== (offset / m.slab_size) _ refl) refl

-- In a well-formed cursor `New` of a slab returns an offset whose slab lies inside the memory and
-- whose recorded size is that of a slab: the cursor's, which moves behind the slab, or 0 at the end
-- of the memory, where the cursor goes back to 0.
pub new-Handed : (m : SimpleMalloc) → IsCursor m → Returns (new m m.slab_size) (Handed m)
new-Handed m v = elim (Bool-cases (leb m.memory_size (m.allocated + m.slab_size))) [
  | inl wraps ↦
      let h : m.memory_size ≤ m.allocated + m.slab_size = ground (arith, wraps) in
      (
        (handed m 0 0, 0),
        new-wraps m v h,
        record {
          sound = record { slab = v.slab; room = v.room; bound = v.bound; inside = omega arith };
          fits = omega (arith, v.room);
          size = handed-size m 0 0;
          moved = inr (refl, refl, h);
        },
      )
  | inr goes ↦
      let h : m.allocated + m.slab_size < m.memory_size = ground (arith, goes) in
      (
        (handed m m.allocated (m.allocated + m.slab_size), m.allocated),
        new-goes m v h,
        record {
          sound = record {
            slab = v.slab;
            room = v.room;
            bound = v.bound;
            inside = omega (arith, h);
          };
          fits = omega (arith, h);
          size = handed-size m m.allocated (m.allocated + m.slab_size);
          moved = inl (refl, refl);
        },
      )
]

-- When the cursor has reached the last slab of a memory of more than two slabs, `New` returns offset
-- 0, and the next `New` returns offset 0 again.
pub new-twice :
    (m : SimpleMalloc)
    → IsCursor m
    → m.memory_size ≤ m.allocated + m.slab_size
    → m.slab_size + m.slab_size < m.memory_size
    → Returns (new m m.slab_size) (λ r. (r.1 ≡ 0) × Returns (new r.0 m.slab_size) (λ r'. r'.1 ≡ 0))
new-twice m v at_end room =
    let m' = handed m 0 0 in
    let v' : IsCursor m' = record {
      slab = v.slab;
      room = v.room;
      bound = v.bound;
      inside = omega arith;
    } in
    ((m', 0), new-wraps m v at_end, (refl, (_, new-goes m' v' (omega (arith, room)), refl)))
