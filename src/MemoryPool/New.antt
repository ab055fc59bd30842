-- ===== src/MemoryPool/New.antt =====
-- Allocation from the pool.
use pet_ps.Common.{
  ℕ, ◌+◌, ◌*◌, ◌%◌, ◌^◌, ◌<◌, Bool, true, false, none, some, List, [], ◌∷◌, count, ◌==◌,
  if◌then◌else◌, ◌≡◌, ◌≢◌, refl, sym, ap, ◌∙◌, arith, Bool-cases, Option-cases, inl, inr, ◌⊎◌,
  ==→eq, eq→==,
}
use pet_ps.Common.Outcome.{fatal, Returns}
use pet_ps.Pool.{Chunk, chunk_size, malloc, full, entries_for}
use pet_ps.MemoryPool.{MemoryPool, malloc_in, open_last, first_open, new_internal, use_front}
use pet_ps.MemoryPool.Use.{use_slab-InUse, use_front-IsPool, front-Serves, use_front-taken}
use pet_ps.MemoryPool.Invariant.{InUse, Serves, IsPool, replaced, replaced-IsPool}
use pet_ps.MemoryPool.Taken.{Allocated, malloc_some, entry-congr, taken_free, taken_more}

module _ (p : MemoryPool) (v : IsPool p) where
  pub malloc_in-Allocated :
      (i slab_size : ℕ)
      → Serves p i slab_size
      → full (p.chunks i) ≡ false
      → Returns (malloc_in p i) (Allocated p slab_size)
  unfolding malloc_in
  malloc_in-Allocated i slab_size (l, u, z) open_chunk =
      let c = p.chunks i in
      let c' = (malloc (i * chunk_size) c).0 in
      let (ptr, run, (id, place, inside, free, reads, more, size, entries, sound), used, again) =
        malloc_some (i * chunk_size) c u open_chunk in
      let new : InUse c' = record {
        used = used;
        sound = sound;
        fits = rw (size, entries) u.fits;
        recovered = again;
      } in
      let total = (p.total_malloc + 1) % 2 ^ 64 in
      (
        (replaced p i c' total, ptr),
        rw (malloc_in, run) refl,
        record {
          sound = replaced-IsPool p i c' total v u new size;
          chunk = i;
          id = id;
          serves = rw (eq→== i i refl) (l, new, size ∙ z);
          inside = rw (eq→== i i refl) (omega (arith, inside, entries));
          place = rw (eq→== i i refl) (place ∙ entry-congr (i * chunk_size) c c' id size entries);
          free_before = taken_free c id u.used free;
          reads = λ j q. elim (Bool-cases (i == j)) [
            | inr e ↦ rw e refl
            | inl e ↦
                rw (e, sym (==→eq i j e))
                  (taken_more c c' id q inside u.used used entries (reads q))
          ];
          counted = refl;
        },
      )

-- The loop finds a chunk that is not full, or every chunk is.
first_open-cases :
    (chunks : ℕ → Chunk) (l : List ℕ)
    → ((i : ℕ) × (first_open chunks l ≡ some i) × (0 < count i l) × (full (chunks i) ≡ false))
      ⊎ ((first_open chunks l ≡ none) × ((j : ℕ) → 0 < count j l → full (chunks j) ≡ true))
unfolding first_open count
first_open-cases chunks [] = inr (refl, λ j h. absurd (omega arith))
first_open-cases chunks (i ∷ l) = elim (Bool-cases (full (chunks i))) [
  | inr e ↦ inl (i, rw e refl, rw (eq→== i i refl) (omega arith), e)
  | inl e ↦ elim (first_open-cases chunks l) [
    | inl (j, run, h, o) ↦ inl (j, rw e run, omega (arith, h), o)
    | inr (run, all) ↦ inr (
      rw e run,
      λ j h. elim (Bool-cases (i == j)) [
        | inl same ↦ rw (sym (==→eq i j same)) e
        | inr apart ↦ all j (ground (arith, h, apart))
      ],
    )
  ]
]

open_last-cases :
    (p : MemoryPool) (slab_size : ℕ)
    → ((i : ℕ) × (open_last p slab_size ≡ some i)
        × (p.size_to_last_used_chunk slab_size ≡ some i)
        × (full (p.chunks i) ≡ false))
      ⊎ (open_last p slab_size ≡ none)
unfolding open_last
open_last-cases p slab_size = elim (Option-cases (p.size_to_last_used_chunk slab_size)) [
  | inl e ↦ inr (rw (open_last, e) refl)
  | inr (i, e) ↦ elim (Bool-cases (full (p.chunks i))) [
    | inl closed ↦ inr (rw (open_last, e, closed) refl)
    | inr open_chunk ↦ inl (i, rw (open_last, e, open_chunk) refl, e, open_chunk)
  ]
]

pub free-cases : (l : List ℕ) → (l ≡ []) ⊎ ((i : ℕ) × (rest : List ℕ) × (l ≡ i ∷ rest))
free-cases [] = inl refl
free-cases (i ∷ rest) = inr (i, rest, refl)

-- In a well-formed pool, for a size of at least a byte that the pool knows and of which some entries
-- fit into a chunk, `New` returns the pointer of an entry that was free, in a chunk of that size,
-- and no other entry changes; it aborts only when no chunk is free and every chunk of the size is
-- full.
pub new_internal-Allocated :
    (p : MemoryPool) (slab_size : ℕ) (chunks : List ℕ)
    → IsPool p
    → 0 < slab_size
    → entries_for slab_size ≢ 0
    → p.size_to_chunks slab_size ≡ some chunks
    → ((new_internal p slab_size ≡ fatal)
        × (p.free_chunks ≡ [])
        × ((j : ℕ) → 0 < count j chunks → full (p.chunks j) ≡ true))
      ⊎ Returns (new_internal p slab_size) (Allocated p slab_size)
unfolding new_internal
new_internal-Allocated p slab_size chunks v pos some_entries known =
    elim (open_last-cases p slab_size) [
      | inl (i, e, last, open_chunk) ↦
          let (r, run, a) =
            malloc_in-Allocated p v i slab_size (v.last slab_size i last) open_chunk in
          inr (r, rw (new_internal, e) run, a)
      | inr e ↦ elim (free-cases p.free_chunks) [
        | inl empty ↦ elim (first_open-cases p.chunks chunks) [
          | inl (i, found, h, open_chunk) ↦
              let serves = v.listed slab_size i chunks known h in
              let (r, run, a) = malloc_in-Allocated p v i slab_size serves open_chunk in
              inr (r, rw (new_internal, e, empty, known, found) run, a)
          | inr (closed, all) ↦ inl (rw (new_internal, e, empty, known, closed) refl, empty, all)
        ]
        | inr (i, rest, front) ↦
            let (c, cut, new, size, open_chunk, none_taken) =
              use_slab-InUse (p.chunks i).bitmap.bits (p.chunks i) slab_size pos some_entries in
            let p' = use_front p slab_size i rest c chunks in
            let v' = use_front-IsPool p v slab_size i rest chunks c front known new size in
            let serves = front-Serves p v slab_size i rest chunks c front known new size in
            let same =
              use_front-taken p v slab_size i rest chunks c front known new size none_taken in
            let here : full (p'.chunks i) ≡ false =
              unfold use_front in rw (eq→== i i refl) open_chunk in
            let (r, run, a) = malloc_in-Allocated p' v' i slab_size serves here in
            inr (
              r,
              rw (new_internal, e, front, cut, known) run,
              record {
                sound = a.sound;
                chunk = a.chunk;
                id = a.id;
                serves = a.serves;
                inside = a.inside;
                place = a.place;
                free_before = sym (same a.chunk a.id) ∙ a.free_before;
                reads = λ j q.
                    a.reads j q
                    ∙ ap (λ (b : Bool). if a.chunk == j then (if a.id == q then true else b) else b)
                        (same j q);
                counted = unfold use_front in a.counted;
              },
            )
      ]
    ]
