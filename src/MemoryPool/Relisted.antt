-- ===== src/MemoryPool/Relisted.antt =====
-- A chunk is put on a list again by the constructor.
use pet_ps.Common.{
  ℕ, suc, ◌<◌, true, false, Option, none, some, List, [], ◌∷◌, ◌++◌, count, count-append, ◌==◌,
  if◌then◌else◌, ◌≡◌, refl, sym, ap, ◌∙◌, arith, Bool-cases, inl, inr, ==→eq, ==→ne, eq→==, ne→==,
  subst,
}
use pet_ps.Pool.{Chunk, recovery}
use pet_ps.Pool.Cut.{Fits}
use pet_ps.Pool.Slab.{IsChunk, recovery-IsChunk, recovery-cases}
use pet_ps.MemoryPool.{MemoryPool, push_free, push_used}
use pet_ps.MemoryPool.Invariant.{InUse, Serves, IsPool, taken_in, taken}

-- The first `i` chunks of a pool.
abbrev pub upto : MemoryPool → ℕ → MemoryPool
upto p i = record p { nr_chunks = i }

-- What a restart may find in a used chunk: persistent fields that agree.
pub record IsHeader (c : Chunk) : Type 0 where
  pub sound : IsChunk c
  pub fits : Fits c.slab_size c.nr_entries

recovery_in_use :
    (c : Chunk)
    → IsHeader c
    → c.is_used ≡ true
    → InUse (recovery c)
      × ((recovery c).slab_size ≡ c.slab_size)
      × ((q : ℕ) → taken_in (recovery c) q ≡ taken_in c q)
recovery_in_use c h used =
    let (sound, _, same) = recovery-IsChunk c h.sound in
    let (used', again) = kept c in
    (
      record {
        used = used' ∙ used;
        sound = sound;
        fits = rw (same.slab_size, same.nr_entries) h.fits;
        recovered = again;
      },
      same.slab_size,
      λ q. rw (used', same.nr_entries, same.bitmap) refl,
    )
  where
    kept : (c : Chunk) → ((recovery c).is_used ≡ c.is_used) × ((recovery c).is_recovered ≡ true)
    kept c = elim (recovery-cases c) [
      | inl (e, same) ↦
          (ap (λ (x : Chunk). x.is_used) same, ap (λ (x : Chunk). x.is_recovered) same ∙ e)
      | inr same ↦ (ap (λ (x : Chunk). x.is_used) same, ap (λ (x : Chunk). x.is_recovered) same)
    ]

abbrev pub some_list : Option (List ℕ) → List ℕ
some_list none = []
some_list (some l) = l

-- The pool knows the size.
abbrev pub Known : MemoryPool → ℕ → Type 0
Known p s = (l : List ℕ) × (p.size_to_chunks s ≡ some l)

last_count : (i j : ℕ) → count j (i ∷ []) ≡ (if i == j then 1 else 0)
unfolding count
last_count i j = omega arith

module _ (p : MemoryPool) (i : ℕ) (v : IsPool (upto p i)) where
  pub push_free-IsPool : (p.chunks i).is_used ≡ false → IsPool (upto (push_free p i) (suc i))
  unfolding push_free
  push_free-IsPool unused =
      let wider : (s j : ℕ) → Serves (upto p i) j s → Serves (upto (push_free p i) (suc i)) j s =
        λ s j (l, u, z). (omega arith, u, z) in
      let counts = λ (j : ℕ). count-append j p.free_chunks (i ∷ []) in
      record {
        state = λ j l. elim (Bool-cases (i == j)) [
          | inl e ↦ inl (rw (sym (==→eq i j e)) unused)
          | inr e ↦ v.state j (omega (arith, ==→ne i j e))
        ];
        idle = λ j h. elim (Bool-cases (i == j)) [
          | inl e ↦ (omega (arith, ==→eq i j e), rw (sym (==→eq i j e)) unused)
          | inr e ↦
              let (l, z) = v.idle j (ground (arith, h, counts j, last_count i j, e)) in
              (omega arith, z)
        ];
        once = λ j. elim (Bool-cases (0 == count j p.free_chunks)) [
          | inl e ↦ ground (arith, counts j, last_count i j, e)
          | inr e ↦
              ground (arith, counts j, last_count i j, v.once j, (v.idle j (ground (arith, e))).0)
        ];
        listed = λ s j l e h. wider s j (v.listed s j l e h);
        last = λ s j e. wider s j (v.last s j e);
      }

  pub push_used-IsPool :
      (l : List ℕ)
      → IsHeader (p.chunks i)
      → (p.chunks i).is_used ≡ true
      → p.size_to_chunks (p.chunks i).slab_size ≡ some l
      → IsPool (upto (push_used p i l) (suc i))
        × ((j q : ℕ) → taken (push_used p i l) j q ≡ taken p j q)
  unfolding push_used
  push_used-IsPool l h used known =
      let (new, size, same) = recovery_in_use (p.chunks i) h used in
      let p' = upto (push_used p i l) (suc i) in
      let s₀ = (p.chunks i).slab_size in
      let wider : (s j : ℕ) → Serves (upto p i) j s → Serves p' j s = λ s j (m, u, z).
        let apart : (i == j) ≡ false = ne→== i j (omega (arith, m)) in
        (omega arith, rw apart u, rw apart z) in
      let here : Serves p' i s₀ = rw (eq→== i i refl) (omega arith, new, size) in
      let counts = λ (j : ℕ). count-append j l (i ∷ []) in
      let joined : (j : ℕ) → 0 < count j (l ++ (i ∷ [])) → Serves p' j s₀ = λ j k.
        elim (Bool-cases (i == j)) [
          | inl e ↦ subst (λ (x : ℕ). Serves p' x s₀) (==→eq i j e) here
          | inr e ↦
              wider s₀ j (v.listed s₀ j l known (ground (arith, k, counts j, last_count i j, e)))
        ] in
      (
        record {
          state = λ j m. elim (Bool-cases (i == j)) [
            | inl e ↦ rw e (inr new)
            | inr e ↦ rw e (v.state j (omega (arith, m, ==→ne i j e)))
          ];
          idle =
              λ j k. let (m, z) = v.idle j k in (omega arith, rw (ne→== i j (omega (arith, m))) z);
          once = v.once;
          listed = λ s j l' e k. elim (Bool-cases (s₀ == s)) [
            | inl e' ↦
                let e'' : some (l ++ (i ∷ [])) ≡ some l' = rw e' at e in
                subst (λ (x : ℕ). Serves p' j x) (==→eq s₀ s e')
                  (joined j (rw (ap some_list e'') k))
            | inr e' ↦ wider s j (v.listed s j l' (rw e' at e) k)
          ];
          last = λ s j e. wider s j (v.last s j e);
        },
        λ j q. elim (Bool-cases (i == j)) [
          | inl e ↦ rw (e, sym (==→eq i j e)) (same q)
          | inr e ↦ rw e refl
        ],
      )
