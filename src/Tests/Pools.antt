-- ===== src/Tests/Pools.antt =====
-- A pool of two chunks, one of them in use for slabs of 1024 bytes.
use pet_ps.Common.{
  ℕ, ◌*◌, ◌<◌, true, false, ◌==◌, if◌then◌else◌, ◌≡◌, ◌≢◌, refl, arith, some, none, ◌⊎◌, inl, inr,
  List, [], ◌∷◌, count, Bool-cases, ◌∙◌,
}
use pet_ps.Common.Outcome.{fatal, Returns}
use pet_ps.Pool.{Chunk, chunk_size, entries_for, entry, full, header_size}
use pet_ps.Pool.Cut.{Fits}
use pet_ps.Pool.Slab.{IsChunk}
use pet_ps.BitMap
use pet_ps.BitMap.{number_of_ones}
use pet_ps.MemoryPool.{MemoryPool, new_internal, free, construct, opened}
use pet_ps.MemoryPool.Invariant.{IsPool, taken, taken_in}
use pet_ps.MemoryPool.New.{new_internal-Allocated}
use pet_ps.MemoryPool.Taken.{Allocated}
use pet_ps.MemoryPool.Release.{free-taken}
use pet_ps.MemoryPool.Restart.{Restartable, construct-Restarted}

-- The chunk as the file holds it, with its first entry taken.
abbrev pub saved : Chunk
saved = record {
  is_used = true;
  slab_size = 1024;
  nr_entries = 64;
  bitmap = record { n = 64; bits = λ i. if i == 0 then 1 else 0 };
  is_recovered = false;
  allocated_entries = 0;
}

abbrev pub unused : Chunk
unused = record saved { is_used = false }

abbrev in_file : ℕ → Chunk
in_file i = if i == 0 then saved else unused

saved-IsChunk : IsChunk saved
saved-IsChunk = record {
  map = record { whole = refl; words = λ i l. ground arith };
  entries = refl;
  slab = omega arith;
  allocated = inl refl;
}

saved-Fits : Fits 1024 64
unfolding header_size
saved-Fits = record { whole = refl; inside = omega arith }

in_file-Restartable : Restartable (opened in_file (2 * chunk_size) (1024 ∷ [])) 2 0
unfolding opened
in_file-Restartable j a b = elim (Bool-cases (j == 0)) [
  | inl e ↦ rw e (inr (refl, record { sound = saved-IsChunk; fits = saved-Fits }, ([], refl)))
  | inr e ↦ rw e (inl refl)
]

construct-Restarted_example :
    Returns
      (construct in_file (2 * chunk_size) (1024 ∷ []) true)
      (λ p. IsPool p × (p.nr_chunks ≡ 2) × ((j q : ℕ) → taken p j q ≡ taken_in (in_file j) q))
construct-Restarted_example =
    construct-Restarted in_file (2 * chunk_size) (1024 ∷ []) (omega arith) in_file-Restartable

abbrev restarted : MemoryPool
restarted = construct-Restarted_example.0

first_held : taken_in saved 0 ≡ true
unfolding BitMap.get
first_held = refl

restarted_held : taken restarted 0 0 ≡ true
restarted_held = construct-Restarted_example.2.2 0 0 ∙ first_held

free-taken_example :
    let r = free restarted (entry (0 * chunk_size) (restarted.chunks 0) 0) in
    (r.1 ≡ true)
    × IsPool r.0
    × ((j q : ℕ)
        → taken r.0 j q ≡ (
            if 0 == j
            then (if 0 == q then false else taken restarted j q)
            else taken restarted j q))
free-taken_example =
    free-taken restarted 0 0 construct-Restarted_example.2.0
      (omega (arith, construct-Restarted_example.2.1)) restarted_held

-- A pool with no chunk in use.
abbrev empty_pool : MemoryPool
empty_pool = record {
  nr_chunks = 1;
  chunks = λ _. unused;
  free_chunks = 0 ∷ [];
  size_to_chunks = λ s. if s == 1024 then some [] else none;
  size_to_last_used_chunk = λ _. none;
  total_malloc = 0;
}

empty_pool-IsPool : IsPool empty_pool
unfolding count
empty_pool-IsPool = record {
  state = λ i l. inl refl;
  idle = λ i h. (ground arith, refl);
  once = λ i. ground arith;
  listed = λ s i l e h. absurd (no_list s i l e h);
  last = λ s i e. absurd (cc e);
}
  where
    no_list : (s i : ℕ) (l : List ℕ) → empty_pool.size_to_chunks s ≡ some l → 0 < count i l → ⊥
    no_list s i [] e h = absurd (omega arith)
    no_list s i (x ∷ l) e h = elim (Bool-cases (s == 1024)) [
      | inl known ↦ let e' : some [] ≡ some (x ∷ l) = rw known at e in absurd (cc e')
      | inr unknown ↦ let e' : none ≡ some (x ∷ l) = rw unknown at e in absurd (cc e')
    ]

some_fit : entries_for 1024 ≢ 0
unfolding entries_for header_size
some_fit = λ e. absurd (omega (arith, e))

new_internal-Allocated_example :
    ((new_internal empty_pool 1024 ≡ fatal)
      × (empty_pool.free_chunks ≡ [])
      × ((j : ℕ) → 0 < count j [] → full (empty_pool.chunks j) ≡ true))
    ⊎ Returns (new_internal empty_pool 1024) (Allocated empty_pool 1024)
new_internal-Allocated_example =
    new_internal-Allocated empty_pool 1024 [] empty_pool-IsPool (omega arith) some_fit refl
