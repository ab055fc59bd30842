-- ===== src/MemoryPool/Start.antt =====
-- The pool that the constructor makes on a first start.
use pet_ps.Common.{
  ℕ, zero, suc, ◌+◌, ◌/◌, ◌<◌, ◌≤◌, true, false, Option, none, some, List, [], length, ltb, ◌==◌,
  ◌≡◌, ◌≢◌, refl, sym, ap, ◌∙◌, arith, ne→==, eq→==, subst, update,
}
use pet_ps.Common.Outcome.{Returns}
use pet_ps.Pool.{Chunk, chunk_size}
use pet_ps.MemoryPool.{MemoryPool, push_free, clear_from, opened, construct, listed_size}
use pet_ps.MemoryPool.Invariant.{Serves, IsPool}
use pet_ps.MemoryPool.Restart.{opened-IsPool}
use pet_ps.MemoryPool.Relisted.{upto, push_free-IsPool}

-- The pool with chunk `i` marked as not in use.
abbrev cleared : MemoryPool → ℕ → MemoryPool
cleared p i = record p { chunks = update p.chunks i (record (p.chunks i) { is_used = false }) }

cleared-IsPool : (p : MemoryPool) (i : ℕ) → IsPool (upto p i) → IsPool (upto (cleared p i) i)
cleared-IsPool p i v =
    let other : (j : ℕ) → j < i → (i == j) ≡ false = λ j l. ne→== i j (omega arith) in
    let kept : (s j : ℕ) → Serves (upto p i) j s → Serves (upto (cleared p i) i) j s =
      λ s j (l, u, z). (l, rw (other j l) u, rw (other j l) z) in
    record {
      state = λ j l. rw (other j l) (v.state j l);
      idle = λ j h. let (l, z) = v.idle j h in (l, rw (other j l) z);
      once = v.once;
      listed = λ s j l e h. kept s j (v.listed s j l e h);
      last = λ s j e. kept s j (v.last s j e);
    }

-- The pool after the loop is well formed; its sizes and its count are as before.
abbrev Cleared : MemoryPool → ℕ → MemoryPool → Type 0
Cleared p n p' =
    IsPool (upto p' n)
    × (p'.nr_chunks ≡ p.nr_chunks)
    × (p'.size_to_chunks ≡ p.size_to_chunks)
    × (p'.total_malloc ≡ p.total_malloc)

clear_from-Cleared :
    (left i : ℕ) (p : MemoryPool) → IsPool (upto p i) → Cleared p (i + left) (clear_from left i p)
unfolding clear_from push_free
clear_from-Cleared zero i p v =
    let same : i ≡ i + 0 = omega arith in (subst (λ n. IsPool (upto p n)) same v, refl, refl, refl)
clear_from-Cleared (suc left) i p v =
    let next : suc i ≡ i + 1 = omega arith in
    let shift : i + 1 + left ≡ i + suc left = omega arith in
    let unused : ((cleared p i).chunks i).is_used ≡ false = rw (eq→== i i refl) refl in
    let v₁ = push_free-IsPool (cleared p i) i (cleared-IsPool p i v) unused in
    let (v', num, sizes, total) =
      clear_from-Cleared left (i + 1) (push_free (cleared p i) i) (rw next at v₁) in
    (rw shift at v', num, sizes, total)

-- When there are as many chunks as sizes, the constructor over a new file returns a well-formed pool
-- with no allocation, which knows the sizes that it is given.
pub construct-fresh :
    (chunks : ℕ → Chunk) (memory_size : ℕ) (slab_sizes : List ℕ)
    → length slab_sizes ≤ memory_size / chunk_size
    → Returns (construct chunks memory_size slab_sizes false) (λ p.
      IsPool p
      × (p.nr_chunks ≡ memory_size / chunk_size)
      × ((s : ℕ) → listed_size slab_sizes s ≡ true → p.size_to_chunks s ≢ none)
      × (p.total_malloc ≡ 0))
unfolding construct opened
construct-fresh chunks memory_size slab_sizes enough =
    let p = opened chunks memory_size slab_sizes in
    let n = memory_size / chunk_size in
    let room : ltb n (length slab_sizes) ≡ false = ground (arith, enough) in
    let p' = clear_from n 0 p in
    let (v', num, sizes, total) =
      clear_from-Cleared n 0 p (opened-IsPool chunks memory_size slab_sizes) in
    let all : 0 + n ≡ p'.nr_chunks = omega (arith, num) in
    (
      p',
      rw (construct, room) refl,
      (
        subst (λ x. IsPool (upto p' x)) all v',
        num,
        λ s l e.
            let e' : p.size_to_chunks s ≡ none =
              sym (ap (λ (f : ℕ → Option (List ℕ)). f s) sizes) ∙ e in
            let e'' : some [] ≡ none = rw l at e' in absurd (cc e''),
        total,
      ),
    )
