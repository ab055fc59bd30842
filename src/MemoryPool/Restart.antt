-- ===== src/MemoryPool/Restart.antt =====
-- The pool that the constructor makes of a file.
use pet_ps.Common.{
  ℕ, zero, suc, ◌+◌, ◌/◌, ◌<◌, ◌≤◌, true, false, none, some, List, [], ◌∷◌, ◌++◌, count, length,
  ltb, ◌==◌, ◌≡◌, refl, sym, ap, ◌∙◌, arith, Bool-cases, inl, inr, ◌⊎◌, ne→==, subst,
}
use pet_ps.Common.Outcome.{Returns}
use pet_ps.Pool.{Chunk, chunk_size}
use pet_ps.MemoryPool.{
  MemoryPool, push_free, push_used, recover_from, opened, construct, listed_size,
}
use pet_ps.MemoryPool.Invariant.{IsPool, taken_in, taken}
use pet_ps.MemoryPool.Relisted.{
  upto, IsHeader, some_list, Known, push_free-IsPool, push_used-IsPool,
}

-- What the loop of the constructor finds from chunk `i` on.
abbrev pub Restartable : MemoryPool → ℕ → ℕ → Type 0
Restartable p left i =
    (j : ℕ)
    → i ≤ j
    → j < i + left
    → ((p.chunks j).is_used ≡ false)
      ⊎ (((p.chunks j).is_used ≡ true) × IsHeader (p.chunks j) × Known p (p.chunks j).slab_size)

Known-push : (p : MemoryPool) (i s : ℕ) (l : List ℕ) → Known p s → Known (push_used p i l) s
unfolding push_used
Known-push p i s l (l', e) = elim (Bool-cases ((p.chunks i).slab_size == s)) [
  | inl same ↦ (l ++ (i ∷ []), rw same refl)
  | inr apart ↦ (l', rw apart e)
]

-- Whether a chunk may be met is not changed by what is done with the ones before it.
restart_next :
    (p : MemoryPool) (left i : ℕ) (l : List ℕ)
    → Restartable p (suc left) i
    → Restartable (push_used p i l) left (i + 1)
restart_next p left i l r j a b =
    let apart : (i == j) ≡ false = ne→== i j (omega arith) in
    elim (r j (omega arith) (omega arith)) [
      | inl idle ↦ inl (unfold push_used in rw apart idle)
      | inr (used, h, known) ↦
          let known' = Known-push p i (p.chunks j).slab_size l known in
          let chunk : (push_used p i l).chunks j ≡ p.chunks j = unfold push_used in rw apart refl in
          subst
            (λ (x : Chunk).
              (x.is_used ≡ false)
              ⊎ ((x.is_used ≡ true) × IsHeader x × Known (push_used p i l) x.slab_size))
            (sym chunk) (inr (used, h, known'))
    ]

-- The pool after the loop is well formed, and the same entries are taken.
abbrev pub Restarted : MemoryPool → ℕ → MemoryPool → Type 0
Restarted p n p' =
    IsPool (upto p' n) × (p'.nr_chunks ≡ p.nr_chunks) × ((j q : ℕ) → taken p' j q ≡ taken p j q)

after_free :
    (p : MemoryPool) (i n : ℕ) (p' : MemoryPool) → Restarted (push_free p i) n p' → Restarted p n p'
unfolding push_free
after_free p i n p' r = r

after_used :
    (p : MemoryPool) (i : ℕ) (l : List ℕ) (n : ℕ) (p' : MemoryPool)
    → ((j q : ℕ) → taken (push_used p i l) j q ≡ taken p j q)
    → Restarted (push_used p i l) n p'
    → Restarted p n p'
unfolding push_used
after_used p i l n p' same₁ (v, num, same) = (v, num, λ j q. same j q ∙ same₁ j q)

recover_from-Restarted :
    (left i : ℕ) (p : MemoryPool)
    → IsPool (upto p i)
    → Restartable p left i
    → Returns (recover_from left i p) (Restarted p (i + left))
unfolding recover_from
recover_from-Restarted zero i p v r =
    (p, refl, (subst (λ n. IsPool (upto p n)) (add_zero i) v, refl, λ j q. refl))
  where
    add_zero : (i : ℕ) → i ≡ i + 0
    add_zero i = omega arith
recover_from-Restarted (suc left) i p v r =
    let shift : i + 1 + left ≡ i + suc left = omega arith in
    let next : suc i ≡ i + 1 = omega arith in
    elim (r i (omega arith) (omega arith)) [
      | inl idle ↦
          let p₁ = push_free p i in
          let v₁ = push_free-IsPool p i v idle in
          let (p', run, (v', num, same)) =
            recover_from-Restarted left (i + 1) p₁ (rw next at v₁)
              (λ j a b. unfold push_free in r j (omega arith) (omega arith)) in
          (
            p',
            rw (recover_from, idle) run,
            after_free p i (i + suc left) p' (rw shift at v', num, same),
          )
      | inr (used, h, (l, known)) ↦
          let p₁ = push_used p i l in
          let (v₁, same₁) = push_used-IsPool p i v l h used known in
          let (p', run, (v', num, same)) =
            recover_from-Restarted left (i + 1) p₁ (rw next at v₁) (restart_next p left i l r) in
          (
            p',
            rw (recover_from, used, known) run,
            after_used p i l (i + suc left) p' same₁ (rw shift at v', num, same),
          )
    ]

pub opened-IsPool :
    (chunks : ℕ → Chunk) (memory_size : ℕ) (slab_sizes : List ℕ)
    → IsPool (upto (opened chunks memory_size slab_sizes) 0)
unfolding opened count
opened-IsPool chunks memory_size slab_sizes = record {
  state = λ j l. absurd (omega arith);
  idle = λ j h. absurd (omega arith);
  once = λ j. omega arith;
  listed = λ s j l e h. elim (Bool-cases (listed_size slab_sizes s)) [
    | inl known ↦
        let e' : some [] ≡ some l = rw known at e in
        let k : 0 < count j [] = rw (sym (ap some_list e')) at h in absurd (omega (arith, k))
    | inr unknown ↦ let e' : none ≡ some l = rw unknown at e in absurd (cc e')
  ];
  last = λ s j e. absurd (cc e);
}

-- When the file has as many chunks as there are sizes, and every used chunk in it has a header whose
-- fields agree and a size that the constructor is given, the constructor over an existing file
-- returns a well-formed pool in which exactly the entries are taken that the file says are.
pub construct-Restarted :
    (chunks : ℕ → Chunk) (memory_size : ℕ) (slab_sizes : List ℕ)
    → length slab_sizes ≤ memory_size / chunk_size
    → Restartable (opened chunks memory_size slab_sizes) (memory_size / chunk_size) 0
    → Returns (construct chunks memory_size slab_sizes true) (λ p.
      IsPool p
      × (p.nr_chunks ≡ memory_size / chunk_size)
      × ((j q : ℕ) → taken p j q ≡ taken_in (chunks j) q))
unfolding construct opened
construct-Restarted chunks memory_size slab_sizes enough r =
    let p = opened chunks memory_size slab_sizes in
    let n = memory_size / chunk_size in
    let room : ltb n (length slab_sizes) ≡ false = ground (arith, enough) in
    let (p', run, (v', num, same)) =
      recover_from-Restarted n 0 p (opened-IsPool chunks memory_size slab_sizes) r in
    let all : 0 + n ≡ p'.nr_chunks = omega (arith, num) in
    (p', rw (construct, room) run, (subst (λ x. IsPool (upto p' x)) all v', num, same))
