-- ===== src/MemoryPool/Placement.antt =====
-- `New` for both values of `PERFECT_FIT_MOD`.
use pet_ps.Common.{
  ℕ, ◌+◌, ◌-◌, ◌*◌, ◌/◌, ◌%◌, ◌^◌, ◌<◌, ◌≤◌, Bool, true, false, Option, none, some, List, [], ◌∷◌,
  ◌==◌, if◌then◌else◌, ◌≡◌, ◌≢◌, refl, sym, ap, ◌∙◌, arith, Option-cases, inl, inr, ◌⊎◌, eq→==,
}
use pet_ps.Common.Bytes.{
  Memory, Apart, read_bytes, read_int, write_int, int_bytes, read_bytes-write-Apart,
  read_int-write-Apart, read_int-write_self,
}
use pet_ps.Common.Outcome.{fatal, Returns, Ensures-done}
use native.Mathlib.Nat.{mul_assoc}
use pet_ps.Pool.{Chunk, chunk_size, entry, entries_for, header_size}
use pet_ps.MemoryPool.{MemoryPool, new_internal}
use pet_ps.MemoryPool.Invariant.{IsPool, taken}
use pet_ps.MemoryPool.New.{new_internal-Allocated}
use pet_ps.MemoryPool.Taken.{Allocated}
use pet_ps.MemoryPool.Geometry.{Keeps, new_internal-Keeps}
use pet_ps.MemoryPool.Sized.{new, lower_bound, meta_data_size}
use pet_ps.MemoryPool.Slabs.{Slab}

-- The slab size that a request of `n` bytes is given.
abbrev pub size_for : Bool → List ℕ → ℕ → Option ℕ
size_for true sizes n = some n
size_for false sizes n = lower_bound sizes (meta_data_size + n)

abbrev pub meta_of : Bool → ℕ
meta_of true = 0
meta_of false = meta_data_size

-- A size that the pool can serve with pointers that `GetMallocOffset` accepts.
pub record IsServed (p : MemoryPool) (s : ℕ) : Type 0 where
  pub positive : 0 < s
  pub aligned : s % 8 ≡ 0
  pub cut : entries_for s ≢ 0
  pub known : p.size_to_chunks s ≢ none

pub record Placed (perfect : Bool) (p : MemoryPool) (memory : Memory) (n s : ℕ)
    (r : MemoryPool × Memory × ℕ) : Type 0 where
  pub sound : IsPool r.0
  pub keeps : Keeps p r.0
  pub slab : Slab (meta_of perfect) r.0 r.2 n
  pub size : (r.0.chunks slab.chunk).slab_size ≡ s
  pub aligned : r.2 % 8 ≡ 0
  pub free_before : taken p slab.chunk slab.id ≡ false
  pub reads :
      (j q : ℕ)
      → taken r.0 j q
        ≡ (if slab.chunk == j then (if slab.id == q then true else taken p j q) else taken p j q)
  pub bytes :
      (a m : ℕ) → Apart a m (r.2 - meta_of perfect) s → read_bytes r.1 a m ≡ read_bytes memory a m
  pub ints : (a : ℕ) → Apart a 4 (r.2 - meta_of perfect) s → read_int r.1 a ≡ read_int memory a
  pub recorded : perfect ≡ false → read_int r.1 (r.2 - meta_data_size) ≡ n

-- The pool has no room for slabs of size `s`.
abbrev pub Exhausted : MemoryPool → ℕ → Type 0
Exhausted p s = (new_internal p s ≡ fatal) × (p.free_chunks ≡ [])

lower_bound-le : (sizes : List ℕ) (n : ℕ) {s : ℕ} → lower_bound sizes n ≡ some s → n ≤ s
unfolding lower_bound
lower_bound-le [] n h = absurd (cc)
lower_bound-le (x ∷ sizes) n h = elim (Option-cases (lower_bound sizes n)) [
  | inl e ↦ ground (arith, h, e)
  | inr (s', e) ↦ ground (arith, h, e, lower_bound-le sizes n e)
]

entry-aligned :
    (chunk id : ℕ) (c : Chunk) → c.slab_size % 8 ≡ 0 → entry (chunk * chunk_size) c id % 8 ≡ 0
unfolding entry header_size
entry-aligned chunk id c h =
    let k = c.slab_size / 8 in
    let e : c.slab_size ≡ k * 8 = omega (arith, h) in
    let f : id * c.slab_size ≡ id * k * 8 = ap (λ (t : ℕ). id * t) e ∙ sym (mul_assoc id k 8) in
    omega (arith, f)

module _ (p : MemoryPool) (memory : Memory) (sizes : List ℕ) (n : ℕ) (v : IsPool p) where
  allocated :
      (s : ℕ)
      → IsServed p s
      → Exhausted p s ⊎ Returns (new_internal p s) (λ r. Allocated p s r × Keeps p r.0)
  allocated s served = elim (Option-cases (p.size_to_chunks s)) [
    | inl e ↦ absurd (served.known e)
    | inr (chunks, e) ↦ elim (new_internal-Allocated p s chunks v served.positive served.cut e) [
      | inl (dies, empty, all) ↦ inl (dies, empty)
      | inr (r, run, a) ↦
          let keeps =
            Ensures-done (new_internal p s) (λ x. Keeps p x.0) (new_internal-Keeps p s v) run in
          inr (r, run, (a, keeps))
    ]
  ]

  -- `NewInternal`, with its pointer as it is.
  perfect-Placed :
      (s : ℕ) (r : MemoryPool × ℕ)
      → n ≡ s
      → IsServed p s
      → Allocated p s r
      → Keeps p r.0
      → Placed true p memory n s (r.0, memory, r.1)
  perfect-Placed s r whole served a keeps = record {
    sound = a.sound;
    keeps = keeps;
    slab = record {
      chunk = a.chunk;
      id = a.id;
      inside = a.serves.0;
      held = a.reads a.chunk a.id ∙ rw (eq→== a.chunk a.chunk refl, eq→== a.id a.id refl) refl;
      place = omega (arith, a.place);
      room = omega (arith, whole, a.serves.2);
    };
    size = a.serves.2;
    aligned =
        rw a.place (entry-aligned a.chunk a.id (r.0.chunks a.chunk) (rw a.serves.2 served.aligned));
    free_before = a.free_before;
    reads = a.reads;
    bytes = λ b m h. refl;
    ints = λ b h. refl;
    recorded = λ e. absurd (cc e);
  }

  -- With the size written in front of the value.
  sized-Placed :
      (s : ℕ) (r : MemoryPool × ℕ)
      → IsServed p s
      → meta_data_size + n ≤ s
      → n < 2 ^ 32
      → Allocated p s r
      → Keeps p r.0
      → Placed false p memory n s (r.0, write_int memory r.1 n, r.1 + meta_data_size)
  unfolding write_int
  sized-Placed s r served room small a keeps =
      let back : r.1 + meta_data_size - meta_data_size ≡ r.1 = omega arith in
      let aligned =
        entry-aligned a.chunk a.id (r.0.chunks a.chunk) (rw a.serves.2 served.aligned) in
      record {
        sound = a.sound;
        keeps = keeps;
        slab = record {
          chunk = a.chunk;
          id = a.id;
          inside = a.serves.0;
          held = a.reads a.chunk a.id ∙ rw (eq→== a.chunk a.chunk refl, eq→== a.id a.id refl) refl;
          place = omega (arith, a.place);
          room = rw a.serves.2 room;
        };
        size = a.serves.2;
        aligned = omega (arith, aligned, a.place);
        free_before = a.free_before;
        reads = a.reads;
        bytes =
            λ b m h. read_bytes-write-Apart memory r.1 (int_bytes n) b m (ground (arith, h, room));
        ints = λ b h. read_int-write-Apart memory r.1 (int_bytes n) b (ground (arith, h, room));
        recorded = λ e.
            ap (read_int (write_int memory r.1 n)) back ∙ read_int-write_self memory r.1 n small;
      }

-- For a request of fewer than 2 ^ 32 bytes whose size the pool serves `New` returns a slab that was
-- free, or aborts with no chunk free.
pub new-Placed :
    (perfect : Bool) (p : MemoryPool) (memory : Memory) (sizes : List ℕ) (n s : ℕ)
    → IsPool p
    → size_for perfect sizes n ≡ some s
    → IsServed p s
    → n < 2 ^ 32
    → ((new perfect sizes p memory n ≡ fatal) × Exhausted p s)
      ⊎ Returns (new perfect sizes p memory n) (Placed perfect p memory n s)
unfolding new
new-Placed true p memory sizes n s v fit served small =
    let same : n ≡ s = cc fit in
    elim (allocated p memory sizes n v s served) [
      | inl (dies, empty) ↦ inl (rw (same, dies) refl, (dies, empty))
      | inr (r, run, (a, keeps)) ↦
          inr (_, rw (same, run) refl, perfect-Placed p memory sizes n v s r same served a keeps)
    ]
new-Placed false p memory sizes n s v fit served small =
    let fit' : lower_bound sizes (meta_data_size + n) ≡ some s = fit in
    elim (allocated p memory sizes n v s served) [
      | inl (dies, empty) ↦ inl (rw (new, fit', dies) refl, (dies, empty))
      | inr (r, run, (a, keeps)) ↦ inr (
        _,
        rw (new, fit', run) refl,
        sized-Placed p memory sizes n v s r served (lower_bound-le sizes (meta_data_size + n) fit)
            small a keeps,
      )
    ]
