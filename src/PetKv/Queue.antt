-- ===== src/PetKv/Queue.antt =====
-- The recycler's queue over the pool: what waits there is allocated, and the loop that frees its front
-- never fails.
use pet_ps.Common.{
  ℕ, suc, ◌+◌, ◌-◌, ◌*◌, ◌<◌, ◌≤◌, Bool, true, false, List, [], ◌∷◌, ◌++◌, count, ltb, ◌==◌,
  if◌then◌else◌, ◌≡◌, ◌≢◌, refl, sym, ap, ◌∙◌, arith, Bool-cases, inl, inr, none, eq→==, ==→eq,
  subst,
}
use pet_ps.Common.Outcome.{done, Returns}
use pet_ps.Pool.{chunk_size, entry}
use pet_ps.MemoryPool.{MemoryPool}
use pet_ps.MemoryPool
use pet_ps.MemoryPool.Invariant.{IsPool, taken}
use pet_ps.MemoryPool.Release.{free-taken}
use pet_ps.MemoryPool.Geometry.{free-Keeps}
use pet_ps.MemoryPool.Sized.{free, meta_data_size}
use pet_ps.MemoryPool.Slabs.{Slab, Slab-Keeps}
use pet_ps.MemoryPool.Placement.{meta_of}
use pet_ps.Recycle.{drain, checked_free}

abbrev pub pointers : List (ℕ × ℕ) → List ℕ
pointers [] = []
pointers ((stamp, ptr) ∷ queue) = ptr ∷ pointers queue

pub pointers-append : (q r : List (ℕ × ℕ)) → pointers (q ++ r) ≡ pointers q ++ pointers r
pointers-append [] r = refl
pointers-append ((stamp, ptr) ∷ q) r = ap (λ l. ptr ∷ l) (pointers-append q r)

count-cons : (x ptr : ℕ) (l : List ℕ) → count x l ≤ count x (ptr ∷ l)
unfolding count
count-cons x ptr l = omega arith

count-here : (ptr : ℕ) (l : List ℕ) → count ptr (ptr ∷ l) ≡ suc (count ptr l)
unfolding count
count-here ptr l = rw (eq→== ptr ptr refl) (omega arith)

front_counts : (x ptr : ℕ) (queue : List (ℕ × ℕ)) → x ≡ ptr → count x (ptr ∷ pointers queue) ≢ 0
front_counts x ptr queue e h =
    let h' : count ptr (ptr ∷ pointers queue) ≡ 0 =
      subst (λ y. count y (ptr ∷ pointers queue) ≡ 0) e h in
    absurd (omega (arith, h', count-here ptr (pointers queue)))

front_twice :
    (x ptr : ℕ) (queue : List (ℕ × ℕ))
    → x ≡ ptr
    → 0 < count x (pointers queue)
    → ¬ (count ptr (ptr ∷ pointers queue) ≤ 1)
front_twice x ptr queue e h le =
    let h' : 0 < count ptr (pointers queue) = subst (λ y. 0 < count y (pointers queue)) e h in
    absurd (omega (arith, h', le, count-here ptr (pointers queue)))

-- `Free` in terms of the pool's.
free_lem :
    (perfect : Bool) (p : MemoryPool) (start : ℕ)
    → free perfect p (start + meta_of perfect) ≡ MemoryPool.free p start
unfolding free
free_lem true p start = ap (MemoryPool.free p) (omega arith)
free_lem false p start =
    let back : start + meta_data_size - meta_data_size ≡ start = omega arith in
    let far : ltb (start + meta_data_size) meta_data_size ≡ false = ground arith in
    rw (far, back) refl

module _ (perfect : Bool) where
  pub record IsQueue (p : MemoryPool) (queue : List (ℕ × ℕ)) : Type 0 where
    pub sound : IsPool p
    pub held : (ptr : ℕ) → 0 < count ptr (pointers queue) → Slab (meta_of perfect) p ptr 0
    pub once : (ptr : ℕ) → count ptr (pointers queue) ≤ 1

  -- What the release of some slabs leaves alone.
  pub record Left (p q : MemoryPool) : Type 0 where
    pub num : q.nr_chunks ≡ p.nr_chunks
    pub known : (s : ℕ) → p.size_to_chunks s ≢ none → q.size_to_chunks s ≢ none

  -- Another pointer is that of another slab.
  other :
      (p : MemoryPool) (ptr : ℕ) (s : Slab (meta_of perfect) p ptr 0) (x n : ℕ)
      (t : Slab (meta_of perfect) p x n)
      → x ≢ ptr
      → (if s.chunk == t.chunk
          then if s.id == t.id then false else taken p t.chunk t.id
          else taken p t.chunk t.id)
        ≡ true
  other p ptr s x n t ne = elim (Bool-cases (s.chunk == t.chunk)) [
    | inr e ↦ rw e t.held
    | inl e ↦ elim (Bool-cases (s.id == t.id)) [
      | inr e' ↦ rw (e, e') t.held
      | inl e' ↦
          let at = λ (i q : ℕ). entry (i * chunk_size) (p.chunks i) q + meta_of perfect in
          absurd (
            ne (
              t.place
              ∙ ap (λ (i : ℕ). at i t.id) (sym (==→eq s.chunk t.chunk e))
              ∙ ap (λ (q : ℕ). at s.chunk q) (sym (==→eq s.id t.id e'))
              ∙ sym s.place))
    ]
  ]

  pub free-Slab :
      (p : MemoryPool) (ptr : ℕ) (s : Slab (meta_of perfect) p ptr 0)
      → IsPool p
      → let r = free perfect p ptr in
        (r.1 ≡ true)
        × IsPool r.0
        × Left p r.0
        × ((x n : ℕ) → x ≢ ptr → Slab (meta_of perfect) p x n → Slab (meta_of perfect) r.0 x n)
  free-Slab p ptr s v =
      let start = entry (s.chunk * chunk_size) (p.chunks s.chunk) s.id in
      let e : free perfect p ptr ≡ MemoryPool.free p start =
        ap (free perfect p) s.place ∙ free_lem perfect p start in
      let (ok, sound, reads) = free-taken p s.chunk s.id v s.inside s.held in
      let k = free-Keeps p start in
      rw e (
        ok,
        sound,
        record { num = k.num; known = k.known },
        λ x n ne t.
            Slab-Keeps (meta_of perfect) p (MemoryPool.free p start).0 x n t k
              (reads t.chunk t.id ∙ other p ptr s x n t ne),
      )

  front_held :
      (stamp ptr : ℕ) (queue : List (ℕ × ℕ)) (p : MemoryPool)
      → IsQueue p ((stamp, ptr) ∷ queue)
      → Slab (meta_of perfect) p ptr 0
  front_held stamp ptr queue p v = v.held ptr (omega (arith, count-here ptr (pointers queue)))

  rest_IsQueue :
      (stamp ptr : ℕ) (queue : List (ℕ × ℕ)) (p : MemoryPool) {p' : MemoryPool}
      → IsQueue p ((stamp, ptr) ∷ queue)
      → IsPool p'
      → ((x n : ℕ) → x ≢ ptr → Slab (meta_of perfect) p x n → Slab (meta_of perfect) p' x n)
      → IsQueue p' queue
  rest_IsQueue stamp ptr queue p v sound keep = record {
    sound = sound;
    held = λ x h.
        let le = count-cons x ptr (pointers queue) in
        let apart : x ≢ ptr = λ same. absurd (front_twice x ptr queue same h (v.once ptr)) in
        keep x 0 apart (v.held x (omega (arith, le, h)));
    once = λ x. omega (arith, v.once x, count-cons x ptr (pointers queue));
  }

  -- What the loop over the queue's front leaves: a queue with its pool, and every slab that was not
  -- in the queue.
  pub record Drained (p : MemoryPool) (queue : List (ℕ × ℕ)) (r : List (ℕ × ℕ) × MemoryPool)
      : Type 0 where
    pub queued : IsQueue r.1 r.0
    pub fewer : (x : ℕ) → count x (pointers r.0) ≤ count x (pointers queue)
    pub left : Left p r.1
    pub others :
        (x n : ℕ)
        → count x (pointers queue) ≡ 0
        → Slab (meta_of perfect) p x n
        → Slab (meta_of perfect) r.1 x n

  pub drain-Drained :
      (due : ℕ → Bool) (queue : List (ℕ × ℕ)) (p : MemoryPool)
      → IsQueue p queue
      → Returns (drain (free perfect) due queue p) (Drained p queue)
  unfolding drain
  drain-Drained due [] p v = (
    ([], p),
    refl,
    record {
      queued = v;
      fewer = λ x. omega arith;
      left = record { num = refl; known = λ s h. h };
      others = λ x n h s. s;
    },
  )
  drain-Drained due ((stamp, ptr) ∷ queue) p v = elim (Bool-cases (due stamp)) [
    | inr e ↦ (
      ((stamp, ptr) ∷ queue, p),
      rw (drain, e) refl,
      record {
        queued = v;
        fewer = λ x. omega arith;
        left = record { num = refl; known = λ s h. h };
        others = λ x n h s. s;
      },
    )
    | inl e ↦
        let here = front_held stamp ptr queue p v in
        let (ok, sound, left, keep) = free-Slab p ptr here v.sound in
        let p' = (free perfect p ptr).0 in
        let run : checked_free (free perfect) p ptr ≡ done p' = unfold checked_free in rw ok refl in
        let (r, run', d) =
          drain-Drained due queue p' (rest_IsQueue stamp ptr queue p v sound keep) in
        (
          r,
          rw (drain, e, run) run',
          record {
            queued = d.queued;
            fewer = λ x. omega (arith, d.fewer x, count-cons x ptr (pointers queue));
            left = record {
              num = d.left.num ∙ left.num;
              known = λ s h. d.left.known s (left.known s h);
            };
            others = λ x n h s.
                let split = count-cons x ptr (pointers queue) in
                let apart : x ≢ ptr = λ same. absurd (front_counts x ptr queue same h) in
                d.others x n (omega (arith, split, h)) (keep x n apart s);
          },
        )
  ]
