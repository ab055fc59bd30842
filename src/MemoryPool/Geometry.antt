-- ===== src/MemoryPool/Geometry.antt =====
-- Allocation and release leave the sizes of the chunks in use alone.
use pet_ps.Common.{
  ℕ, ltb, ◌/◌, ◌*◌, true, false, Option, none, some, List, ◌∷◌, count, ◌==◌, ◌≡◌, ◌≢◌, refl, ap,
  ◌∙◌, arith, Bool-cases, Option-cases, inl, inr, ==→eq, eq→==,
}
use pet_ps.Common.Outcome.{Ensures, Ensures-map, Ensures-eq}
use pet_ps.BitMap.{BitMap}
use pet_ps.BitMap
use pet_ps.Pool.{Chunk, chunk_size, malloc, recovery, take_entry, free_slab, use_slab}
use pet_ps.MemoryPool.{MemoryPool, malloc_in, open_last, first_open, new_internal, use_front, free}
use pet_ps.MemoryPool.Invariant.{IsPool}
use pet_ps.MemoryPool.New.{free-cases}

pub record SameShape (c d : Chunk) : Type 0 where
  pub slab_size : c.slab_size ≡ d.slab_size
  pub nr_entries : c.nr_entries ≡ d.nr_entries

recovery-shape : (c : Chunk) → SameShape (recovery c) c
unfolding recovery
recovery-shape c = elim (Bool-cases c.is_recovered) [
  | inl e ↦ record { slab_size = ground (arith, e); nr_entries = ground (arith, e) }
  | inr e ↦ record { slab_size = ground (arith, e); nr_entries = ground (arith, e) }
]

take_entry-shape :
    (chunk_start : ℕ) (c : Chunk) (r : BitMap × Option ℕ)
    → SameShape (take_entry chunk_start c r).0 c
unfolding take_entry
take_entry-shape chunk_start c (m, none) = record { slab_size = refl; nr_entries = refl }
take_entry-shape chunk_start c (m, some id) = record { slab_size = refl; nr_entries = refl }

malloc-shape : (chunk_start : ℕ) (c : Chunk) → SameShape (malloc chunk_start c).0 c
unfolding malloc
malloc-shape chunk_start c =
    let a = take_entry-shape chunk_start (recovery c) (BitMap.set_zero_pos (recovery c).bitmap) in
    let b = recovery-shape c in
    record { slab_size = a.slab_size ∙ b.slab_size; nr_entries = a.nr_entries ∙ b.nr_entries }

-- What a call that returns a pool leaves alone.
pub record Keeps (p q : MemoryPool) : Type 0 where
  pub num : q.nr_chunks ≡ p.nr_chunks
  pub shape : (j : ℕ) → (p.chunks j).is_used ≡ true → SameShape (q.chunks j) (p.chunks j)
  pub known : (s : ℕ) → p.size_to_chunks s ≢ none → q.size_to_chunks s ≢ none

same_shape : (c : Chunk) → SameShape c c
same_shape c = record { slab_size = refl; nr_entries = refl }

malloc_in-Keeps : (p : MemoryPool) (i : ℕ) → Ensures (malloc_in p i) (λ r. Keeps p r.0)
unfolding malloc_in
malloc_in-Keeps p i = elim (Option-cases (malloc (i * chunk_size) (p.chunks i)).1) [
  | inl e ↦ rw (malloc_in, e) tt
  | inr (ptr, e) ↦
      rw (malloc_in, e)
        (record {
          num = refl;
          shape = λ j _. elim (Bool-cases (i == j)) [
            | inl same ↦ rw (same, ← ==→eq i j same) (malloc-shape (i * chunk_size) (p.chunks i))
            | inr apart ↦ rw apart (same_shape (p.chunks j))
          ];
          known = λ s h. h;
        })
]

Keeps_trans :
    (p q r : MemoryPool)
    → Keeps p q
    → Keeps q r
    → ((j : ℕ) → (p.chunks j).is_used ≡ true → (q.chunks j).is_used ≡ true)
    → Keeps p r
Keeps_trans p q r a b stays = record {
  num = b.num ∙ a.num;
  shape = λ j u.
      let x = a.shape j u in
      let y = b.shape j (stays j u) in
      record { slab_size = y.slab_size ∙ x.slab_size; nr_entries = y.nr_entries ∙ x.nr_entries };
  known = λ s h. b.known s (a.known s h);
}

-- A chunk that is put to use was not in use.
use_front-Keeps :
    (p : MemoryPool) (slab_size i : ℕ) (rest : List ℕ) (c : Chunk) (chunks : List ℕ)
    → (p.chunks i).is_used ≡ false
    → Keeps p (use_front p slab_size i rest c chunks)
      × ((j : ℕ)
          → (p.chunks j).is_used ≡ true
          → ((use_front p slab_size i rest c chunks).chunks j).is_used ≡ true)
unfolding use_front
use_front-Keeps p slab_size i rest c chunks idle =
    let apart : (j : ℕ) → (p.chunks j).is_used ≡ true → (i == j) ≡ false = λ j u.
      elim (Bool-cases (i == j)) [
        | inl e ↦
            let clash : (p.chunks j).is_used ≡ false = rw (← ==→eq i j e) idle in
            absurd (cc (clash, u))
        | inr e ↦ e
      ] in
    (
      record {
        num = refl;
        shape = λ j u. rw (apart j u) (same_shape (p.chunks j));
        known = λ s h. elim (Bool-cases (slab_size == s)) [ inl e ↦ rw e (cc) | inr e ↦ rw e h ];
      },
      λ j u. rw (apart j u) u,
    )

after_front :
    (p : MemoryPool) (slab_size i : ℕ) (rest : List ℕ) (c : Chunk) (chunks : List ℕ)
    → (p.chunks i).is_used ≡ false
    → Ensures (malloc_in (use_front p slab_size i rest c chunks) i) (λ r. Keeps p r.0)
after_front p slab_size i rest c chunks idle =
    let q = use_front p slab_size i rest c chunks in
    let (a, stays) = use_front-Keeps p slab_size i rest c chunks idle in
    Ensures-map (malloc_in q i) (λ r. Keeps q r.0) (λ r. Keeps p r.0)
      (λ r b. Keeps_trans p q r.0 a b stays) (malloc_in-Keeps q i)

first_is_free :
    (p : MemoryPool) (i : ℕ) (rest : List ℕ)
    → IsPool p
    → p.free_chunks ≡ i ∷ rest
    → (p.chunks i).is_used ≡ false
unfolding count
first_is_free p i rest v e = (v.idle i (rw e (rw (eq→== i i refl) (omega arith)))).1

pub new_internal-Keeps :
    (p : MemoryPool) (slab_size : ℕ)
    → IsPool p
    → Ensures (new_internal p slab_size) (λ r. Keeps p r.0)
unfolding new_internal use_front
new_internal-Keeps p slab_size v = elim (Option-cases (open_last p slab_size)) [
  | inr (i, e) ↦ Ensures-eq (λ r. Keeps p r.0) (rw (new_internal, e) refl) (malloc_in-Keeps p i)
  | inl e ↦ elim (free-cases p.free_chunks) [
    | inl empty ↦ elim (Option-cases (p.size_to_chunks slab_size)) [
      | inl unknown ↦ rw (new_internal, e, empty, unknown) tt
      | inr (chunks, known) ↦ elim (Option-cases (first_open p.chunks chunks)) [
        | inl closed ↦ rw (new_internal, e, empty, known, closed) tt
        | inr (i, found) ↦
            Ensures-eq (λ r. Keeps p r.0)
              (rw (new_internal, e, empty, known, found)
                (ap (λ (f : List ℕ). malloc_in (record p { free_chunks = f }) i) empty))
              (malloc_in-Keeps p i)
      ]
    ]
    | inr (i, rest, front) ↦
        elim (Option-cases (use_slab (p.chunks i).bitmap.bits (p.chunks i) slab_size)) [
          | inl uncut ↦ rw (new_internal, e, front, uncut) tt
          | inr (c, cut) ↦ elim (Option-cases (p.size_to_chunks slab_size)) [
            | inl unknown ↦ rw (new_internal, e, front, cut, unknown) tt
            | inr (chunks, known) ↦
                Ensures-eq (λ r. Keeps p r.0) (rw (new_internal, e, front, cut, known) refl)
                  (after_front p slab_size i rest c chunks (first_is_free p i rest v front))
          ]
        ]
  ]
]

free_slab-shape :
    (chunk_start : ℕ) (c : Chunk) (ptr : ℕ) → SameShape (free_slab chunk_start c ptr) c
unfolding free_slab
free_slab-shape chunk_start c ptr =
    let a = recovery-shape c in record { slab_size = a.slab_size; nr_entries = a.nr_entries }

pub free-Keeps : (p : MemoryPool) (ptr : ℕ) → Keeps p (free p ptr).0
unfolding free
free-Keeps p ptr =
    let i = ptr / chunk_size in
    elim (Bool-cases (ltb i p.nr_chunks)) [
      | inr e ↦
          rw e (record { num = refl; shape = λ j u. same_shape (p.chunks j); known = λ s h. h })
      | inl e ↦ rw e (record {
        num = refl;
        shape = λ j _. elim (Bool-cases (i == j)) [
          | inl same ↦
              rw (same, ← ==→eq i j same) (free_slab-shape (i * chunk_size) (p.chunks i) ptr)
          | inr apart ↦ rw apart (same_shape (p.chunks j))
        ];
        known = λ s h. h;
      })
    ]
