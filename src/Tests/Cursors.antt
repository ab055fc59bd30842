-- ===== src/Tests/Cursors.antt =====
-- A memory of four slabs of 8 bytes.
use pet_ps.Common.{ℕ, ◌≡◌, ◌≤◌, arith}
use pet_ps.Common.Outcome.{Returns}
use pet_ps.SimpleMalloc.{SimpleMalloc, new}
use pet_ps.SimpleMalloc.Cursor.{IsCursor, Handed, new-Handed, new-twice}

abbrev slabs : ℕ → SimpleMalloc
slabs allocated = record {
  memory_size = 32;
  slab_size = 8;
  allocated = allocated;
  nr_malloc = 0;
  meta_data_block = λ _. 0;
}

slabs-IsCursor : (allocated : ℕ) → allocated ≤ 32 → IsCursor (slabs allocated)
slabs-IsCursor allocated l = record {
  slab = omega arith;
  room = omega arith;
  bound = omega arith;
  inside = l;
}

new-Handed_example : Returns (new (slabs 16) 8) (Handed (slabs 16))
new-Handed_example = new-Handed (slabs 16) (slabs-IsCursor 16 (omega arith))

new-twice_example :
    Returns (new (slabs 24) 8) (λ r. (r.1 ≡ 0) × Returns (new r.0 8) (λ r'. r'.1 ≡ 0))
new-twice_example =
    new-twice (slabs 24) (slabs-IsCursor 24 (omega arith)) (omega arith) (omega arith)
