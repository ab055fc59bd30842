-- ===== src/Pool/Cut.antt =====
-- How `Use` cuts a chunk.
use pet_ps.Common.{
  ℕ, zero, suc, ◌+◌, ◌-◌, ◌*◌, ◌/◌, ◌%◌, ◌<◌, ◌≤◌, ltb, ltb→lt, ◌≡◌, refl, arith, Bool-cases, inl,
  inr, ◌⊎◌,
}
use native.Mathlib.Nat.{le-div_iff_mul-le, mul-le-mul_right}
use pet_ps.Pool.{Chunk, entry, chunk_size, header_size, fit_from, entries_for}

-- A multiple of 64 entries that fits into a chunk.
pub record Fits (slab_size nr_entries : ℕ) : Type 0 where
  pub whole : nr_entries % 64 ≡ 0
  pub inside : header_size nr_entries + nr_entries * slab_size ≤ chunk_size

fit_from_lem :
    (slab_size left nr_entries : ℕ)
    → nr_entries ≡ 64 * left
    → Fits slab_size (fit_from slab_size left nr_entries)
      × (fit_from slab_size left nr_entries ≤ nr_entries)
      × ((fit_from slab_size left nr_entries ≡ nr_entries)
          ⊎ (chunk_size
              < header_size (fit_from slab_size left nr_entries + 64)
                + (fit_from slab_size left nr_entries + 64) * slab_size))
unfolding fit_from header_size
fit_from_lem slab_size zero nr_entries e =
    let z : nr_entries ≡ 0 = omega arith in
    (record { whole = omega arith; inside = rw z (omega arith) }, omega arith, inl refl)
fit_from_lem slab_size (suc left) nr_entries e =
    elim (Bool-cases (ltb chunk_size (header_size nr_entries + nr_entries * slab_size))) [
      | inr fits ↦
          rw fits
            (record { whole = omega arith; inside = ground (arith, fits) }, omega arith, inl refl)
      | inl more ↦
          let (fit, le, alt) = fit_from_lem slab_size left (nr_entries - 64) (omega arith) in
          let again : nr_entries - 64 + 64 ≡ nr_entries = omega arith in
          let last = ltb→lt chunk_size (header_size nr_entries + nr_entries * slab_size) more in
          rw more (
            fit,
            omega arith,
            elim alt [ inr over ↦ inr over | inl same ↦ inr (rw (same, again) last) ],
          )
    ]

-- For slabs of at least a byte, `Use` cuts a chunk into a multiple of 64 entries that fits with its
-- header, and into as many as fit: 64 more would not.
pub entries_for_lem :
    (slab_size : ℕ)
    → 0 < slab_size
    → Fits slab_size (entries_for slab_size)
      × (chunk_size
          < header_size (entries_for slab_size + 64) + (entries_for slab_size + 64) * slab_size)
unfolding entries_for header_size
entries_for_lem slab_size pos =
    let most = chunk_size / slab_size in
    let whole = most - most % 64 in
    let (fit, le, alt) = fit_from_lem slab_size (whole / 64) whole (omega arith) in
    (
      fit,
      elim alt [
        | inr over ↦ over
        | inl same ↦ rw same (elim (Bool-cases (ltb chunk_size ((whole + 64) * slab_size))) [
          | inl over ↦ omega (arith, ltb→lt _ _ over)
          | inr under ↦
              let inside : (whole + 64) * slab_size ≤ chunk_size = ground (arith, under) in
              let bound = (le-div_iff_mul-le {x = whole + 64} {y = chunk_size} pos).1 inside in
              absurd (omega (arith, bound))
        ])
      ],
    )

pub entry-disjoint :
    (chunk_start : ℕ) (c : Chunk) (a b : ℕ)
    → Fits c.slab_size c.nr_entries
    → a < b
    → b < c.nr_entries
    → (chunk_start + header_size c.nr_entries ≤ entry chunk_start c a)
      × (entry chunk_start c a + c.slab_size ≤ entry chunk_start c b)
      × (entry chunk_start c b + c.slab_size ≤ chunk_start + chunk_size)
unfolding entry
entry-disjoint chunk_start c a b fits less l =
    let apart = mul-le-mul_right {m = suc a} {n = b} c.slab_size less in
    let top = mul-le-mul_right {m = suc b} {n = c.nr_entries} c.slab_size l in
    (omega arith, omega (arith, apart), omega (arith, top, fits.inside))
