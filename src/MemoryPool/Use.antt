-- ===== src/MemoryPool/Use.antt =====
-- A free chunk that is put to use.
use pet_ps.Common.{
  ℕ, ◌+◌, ◌/◌, ◌%◌, ◌<◌, true, false, Option, none, some, ltb, ◌==◌, if◌then◌else◌, ◌≡◌, ◌≢◌, refl,
  sym, ap, ◌∙◌, arith, Bool-cases, inl, inr, ==→eq, eq→==, ne→==, lt→ltb, ltb→lt, List, [], ◌∷◌,
  ◌++◌, count, count-append, subst, sum_below-congr, sum_below-const,
}
use pet_ps.Common.Bitwise.{bit-zero}
use pet_ps.BitMap
use pet_ps.BitMap.{BitMap, number_of_ones}
use pet_ps.BitMap.Words.{get-eq-bit}
use pet_ps.BitMap.Ones.{number_of_ones-eq-sum}
use pet_ps.Pool.{Chunk, entries_for, use_slab, full}
use pet_ps.Pool.Cut.{entries_for_lem}
use pet_ps.MemoryPool.{MemoryPool, use_front}
use pet_ps.MemoryPool.Invariant.{InUse, Serves, IsPool, taken_in, taken}

-- A map whose words below `n` are zero reads false there and has no ones.
zero_words :
    (m : BitMap)
    → m.n % 64 ≡ 0
    → ((i : ℕ) → i < m.n / 64 → m.bits i ≡ 0)
    → ((q : ℕ) → q < m.n → BitMap.get m q ≡ false) × (number_of_ones m ≡ 0)
zero_words m whole zeros =
    let reads : (q : ℕ) → q < m.n → BitMap.get m q ≡ false =
      λ q l. get-eq-bit m q ∙ rw (zeros (q / 64) (omega (arith, whole)), bit-zero (q % 64)) refl in
    (
      reads,
      omega (
        arith,
        number_of_ones-eq-sum m,
        sum_below-congr m.n (λ j. if BitMap.get m j then 1 else 0) (λ _. 0)
            (λ j l. rw (reads j l) refl),
        sum_below-const m.n 0,
      ),
    )

-- The chunk that `Use` makes has every entry free.
pub use_slab-InUse :
    (memory : ℕ → ℕ) (c : Chunk) (slab_size : ℕ)
    → 0 < slab_size
    → entries_for slab_size ≢ 0
    → (c' : Chunk) × (use_slab memory c slab_size ≡ some c')
      × InUse c'
      × (c'.slab_size ≡ slab_size)
      × (full c' ≡ false)
      × ((q : ℕ) → taken_in c' q ≡ false)
unfolding use_slab BitMap.new BitMap.clear_all full
use_slab-InUse memory c slab_size pos some_entries =
    let n = entries_for slab_size in
    let (fits, _) = entries_for_lem slab_size pos in
    let bitmap : BitMap = BitMap.clear_all (BitMap.clear_all (record { n = n; bits = memory })) in
    let zeros : (i : ℕ) → i < n / 64 → bitmap.bits i ≡ 0 =
      λ i l. rw (lt→ltb i (n / 8 / 8) (omega arith)) refl in
    let (reads, none_set) = zero_words bitmap fits.whole zeros in
    let c' : Chunk = record {
      is_used = true;
      slab_size = slab_size;
      nr_entries = n;
      bitmap = bitmap;
      is_recovered = true;
      allocated_entries = 0;
    } in
    (
      c',
      rw (use_slab, ne→== n 0 some_entries, eq→== (n % 64) 0 fits.whole) refl,
      record {
        used = refl;
        sound = record {
          map = record { whole = fits.whole; words = λ i l. omega (arith, zeros i l) };
          entries = refl;
          slab = pos;
          allocated = inr (sym none_set);
        };
        fits = fits;
        recovered = refl;
      },
      refl,
      ne→== 0 n (λ e. some_entries (sym e)),
      λ q. elim (Bool-cases (ltb q n)) [
        | inl e ↦ rw (e, reads q (ltb→lt q n e)) refl
        | inr e ↦ rw e refl
      ],
    )

module _ (p : MemoryPool) (v : IsPool p) (slab_size i : ℕ) (rest chunks : List ℕ) (c : Chunk)
    (front : p.free_chunks ≡ i ∷ rest) (known : p.size_to_chunks slab_size ≡ some chunks)
    (new : InUse c) (size : c.slab_size ≡ slab_size) where
  front_count : (j : ℕ) → count j p.free_chunks ≡ (if i == j then 1 else 0) + count j rest
  unfolding count
  front_count j = rw front refl

  front_idle : (i < p.nr_chunks) × ((p.chunks i).is_used ≡ false)
  front_idle = v.idle i (ground (arith, front_count i, eq→== i i refl))

  -- A chunk that serves a size is not the one at the front.
  still-Serves : (j s : ℕ) → Serves p j s → Serves (use_front p slab_size i rest c chunks) j s
  unfolding use_front
  still-Serves j s (l, u, z) = elim (Bool-cases (i == j)) [
    | inr e ↦ rw e (l, u, z)
    | inl e ↦
        let used : (p.chunks i).is_used ≡ true = rw (==→eq i j e) u.used in
        absurd (cc (front_idle.1, used))
  ]

  pub front-Serves : Serves (use_front p slab_size i rest c chunks) i slab_size
  unfolding use_front
  front-Serves = rw (eq→== i i refl) (front_idle.0, new, size)

  last_count : (j : ℕ) → count j (i ∷ []) ≡ (if i == j then 1 else 0)
  unfolding count
  last_count j = omega arith

  front_listed :
      (j : ℕ)
      → 0 < count j (chunks ++ (i ∷ []))
      → Serves (use_front p slab_size i rest c chunks) j slab_size
  front_listed j h = elim (Bool-cases (i == j)) [
    | inl e ↦
        subst (λ (x : ℕ). Serves (use_front p slab_size i rest c chunks) x slab_size) (==→eq i j e)
          front-Serves
    | inr e ↦ still-Serves j slab_size (
        v.listed slab_size j chunks known
          (ground (arith, h, count-append j chunks (i ∷ []), last_count j, e)))
  ]

  some_list : Option (List ℕ) → List ℕ
  some_list none = []
  some_list (some l) = l

  some_index : Option ℕ → ℕ
  some_index none = 0
  some_index (some l) = l

  -- The pool stays well formed, and no entry is taken.
  pub use_front-IsPool : IsPool (use_front p slab_size i rest c chunks)
  unfolding use_front some_list some_index
  use_front-IsPool = record {
    state =
        λ j l. elim (Bool-cases (i == j)) [ inl e ↦ rw e (inr new) | inr e ↦ rw e (v.state j l) ];
    idle = λ j h.
        let (l, z) = v.idle j (omega (arith, front_count j, h)) in
        elim (Bool-cases (i == j)) [
          | inl e ↦ absurd (ground (arith, front_count j, h, v.once j, e))
          | inr e ↦ rw e (l, z)
        ];
    once = λ j. omega (arith, front_count j, v.once j);
    listed = λ s j l e h. elim (Bool-cases (slab_size == s)) [
      | inl same ↦
          let e' : some (chunks ++ (i ∷ [])) ≡ some l = rw same at e in
          let list : chunks ++ (i ∷ []) ≡ l = ap some_list e' in
          subst (λ (x : ℕ). Serves (use_front p slab_size i rest c chunks) j x)
            (==→eq slab_size s same) (front_listed j (rw list h))
      | inr apart ↦ still-Serves j s (v.listed s j l (rw apart at e) h)
    ];
    last = λ s j e. elim (Bool-cases (slab_size == s)) [
      | inl same ↦
          let e' : some i ≡ some j = rw same at e in
          subst (λ (x : ℕ). Serves (use_front p slab_size i rest c chunks) j x)
            (==→eq slab_size s same)
            (subst (λ (x : ℕ). Serves (use_front p slab_size i rest c chunks) x slab_size)
              (ap some_index e') front-Serves)
      | inr apart ↦ still-Serves j s (v.last s j (rw apart at e))
    ];
  }

  pub use_front-taken :
      ((q : ℕ) → taken_in c q ≡ false)
      → (j q : ℕ) → taken (use_front p slab_size i rest c chunks) j q ≡ taken p j q
  unfolding use_front
  use_front-taken none_taken j q = elim (Bool-cases (i == j)) [
    | inr e ↦ rw e refl
    | inl e ↦
        let idle : (p.chunks j).is_used ≡ false = rw (sym (==→eq i j e)) front_idle.1 in
        let before : taken p j q ≡ false = rw idle refl in rw e (none_taken q) ∙ sym before
  ]
