-- ===== src/PetHash/Valid.antt =====
-- `Valid`, the check of a table found in a file.
-- The counts are of slots and stay below 2 ^ 64, and the log lines are left out.
use pet_ps.Common.{
  ℕ, zero, suc, ◌+◌, ◌*◌, ◌/◌, ◌%◌, ◌<◌, ◌≤◌, Bool, true, false, not, ◌&&◌, ◌==◌, if◌then◌else◌,
  ◌≡◌, Option, none, some, refl, ap, sym, ◌∙◌, arith, Bool-cases, inl, inr, ltb, eq→==, ne→==, leb,
  sum_below, sum_below-congr, sum_below-const, sum_below-shift, sum_below-le, sum_below_blocks,
}
use pet_ps.Common.Outcome.{Outcome, done, ◌>>=◌}
use pet_ps.Common.Pow.{pow-pos}
use pet_ps.PetHash.Chunk.{max_size}
use pet_ps.PetHash.Find.{used, size-le}
use pet_ps.PetHash.Table.{PetHash, memory_size, index_in_use, get_by_id}
use pet_ps.PetHash.Search.{get}
use pet_ps.PetHash.Invariant.{Stored, Inv}
use pet_ps.PetHash.Lookup.{get-Stored}

module _ (crc : ℕ → ℕ) where
  -- The loop over the slots, with its rounds left, `i` and `total_num`; none is `return false`.
  unfoldable pub scan_from : PetHash → ℕ → ℕ → ℕ → Outcome (Option ℕ)
  scan_from t zero i total_num = done (some total_num)
  scan_from t (suc left) i total_num = elim (index_in_use t i) [
    | false ↦ scan_from t left (i + 1) total_num
    | true ↦ get crc t (get_by_id t i).first >>= λ (value, exists). elim exists [
      | true ↦ scan_from t left (i + 1) (total_num + 1)
      | false ↦ done none
    ]
  ]

  unfoldable pub valid : (ℕ → ℕ) → ℕ → PetHash → ℕ → Outcome Bool
  valid scale size_of_chunk t file_size =
      if (t.capacity == 0) && ltb 0 file_size
      then done false
      else if ltb t.capacity t.size
      then done false
      else if not (t.chunk_num * max_size == t.capacity)
      then done false
      else if not (file_size == memory_size scale size_of_chunk t.capacity true)
      then done false
      else (scan_from t t.capacity 0 0 >>= λ scanned. elim scanned [
        | none ↦ done false
        | some total_num ↦
            let chunk_total = sum_below t.chunk_num (λ p. (t.chunk_table p).size) in
            done ((total_num == chunk_total) && (total_num == t.size))
      ])

-- How many slots are in use from `i` on.
abbrev marks : PetHash → ℕ → ℕ
marks t i = if index_in_use t i then 1 else 0

module _ (crc : ℕ → ℕ) (t : PetHash) (v : Inv crc t (λ _. 0)) where
  -- A slot in use holds a key that `Get` finds.
  found :
      (i : ℕ)
      → index_in_use t i ≡ true
      → (value : ℕ) × (get crc t (get_by_id t i).first ≡ done (value, true))
  unfolding index_in_use get_by_id
  found i h = elim (Bool-cases (leb t.capacity i)) [
    | inl out ↦
        let clash : index_in_use t i ≡ false = rw (index_in_use, out) refl in absurd (cc (clash, h))
    | inr inside ↦
        let p = i / max_size in
        let id = i % max_size in
        let slot : id < max_size = omega arith in
        let chunk : p < t.chunk_num = ground (arith, inside, v.slots) in
        let busy : not ((t.chunk_table p).tags id == 0) ≡ true = rw (index_in_use, inside) at h in
        let s : Stored t ((t.chunk_table p).value id).first p id = record {
          chunk = chunk;
          slot = slot;
          busy = ground (arith, busy);
          named = refl;
        } in
        (_, get-Stored crc v ((t.chunk_table p).value id).first p id s)
  ]

  scan_from-marks :
      (left i total : ℕ)
      → scan_from crc t left i total ≡ done (some (total + sum_below left (λ j. marks t (i + j))))
  unfolding scan_from sum_below
  scan_from-marks zero i total = ap (λ (x : ℕ). done (some x)) (omega arith)
  scan_from-marks (suc left) i total =
      let later : sum_below left (λ j. marks t (i + suc j))
          ≡ sum_below left (λ j. marks t (i + 1 + j)) =
        sum_below-congr left _ _ (λ j l. ap (marks t) (shift i j)) in
      let split = sum_below-shift left (λ j. marks t (i + j)) in
      elim (Bool-cases (index_in_use t i)) [
        | inl e ↦
            let one : marks t (i + 0) ≡ 1 = ap (marks t) (plain i) ∙ rw e refl in
            let (value, run) = found i e in
            rw (scan_from, ◌>>=◌, e, run)
              (scan_from-marks left (i + 1) (total + 1)
                ∙ ap (λ (x : ℕ). done (some x)) (omega (arith, split, later, one)))
        | inr e ↦
            let none_here : marks t (i + 0) ≡ 0 = ap (marks t) (plain i) ∙ rw e refl in
            rw (scan_from, e)
              (scan_from-marks left (i + 1) total
                ∙ ap (λ (x : ℕ). done (some x)) (omega (arith, split, later, none_here)))
      ]
    where
      plain : (i : ℕ) → i + 0 ≡ i
      plain i = omega arith

      shift : (i j : ℕ) → i + suc j ≡ i + 1 + j
      shift i j = omega arith

  mark-used :
      (p j : ℕ)
      → p < t.chunk_num
      → j < max_size
      → marks t (p * max_size + j) ≡ used (t.chunk_table p) j
  unfolding index_in_use used
  mark-used p j l k =
      let i = p * max_size + j in
      let inside : leb t.capacity i ≡ false = ground (arith, v.slots, l, k) in
      let chunk : i / max_size ≡ p = omega arith in
      let slot : i % max_size ≡ j = omega arith in
      rw (inside, chunk, slot)
        (elim (Bool-cases ((t.chunk_table p).tags j == 0)) [
          | inl e ↦ rw e refl
          | inr e ↦ rw e refl
        ])

  -- The slots in use are what the chunks count.
  marks-sizes : sum_below t.capacity (marks t) ≡ t.size
  marks-sizes =
      ap (λ (n : ℕ). sum_below n (marks t)) v.slots
      ∙ sum_below_blocks max_size t.chunk_num (marks t)
      ∙ sum_below-congr t.chunk_num _ (λ p. (t.chunk_table p).size)
          (λ p l.
            sum_below-congr max_size _ (used (t.chunk_table p)) (λ j k. mark-used p j l k)
            ∙ sym (v.counted p l).counted)
      ∙ sym v.total

  size_bound : t.size ≤ t.capacity
  size_bound = omega (
    arith,
    v.total,
    v.slots,
    sum_below-le t.chunk_num (λ q. (t.chunk_table q).size) (λ _. max_size)
        (λ q l. size-le (t.chunk_table q) (v.counted q l)),
    sum_below-const t.chunk_num max_size,
  )

  -- A well-formed table passes `Valid` against the size of a file made for its capacity: the check
  -- ends and returns true.
  pub valid-Inv :
      (scale : ℕ → ℕ) (size_of_chunk : ℕ)
      → valid crc scale size_of_chunk t (memory_size scale size_of_chunk t.capacity true)
        ≡ done true
  unfolding valid
  valid-Inv scale size_of_chunk =
      let some_slots : (t.capacity == 0) ≡ false =
        ne→== t.capacity 0 (omega (arith, v.slots, v.power, pow-pos v.width)) in
      let bounded : ltb t.capacity t.size ≡ false = ground (arith, size_bound) in
      let slots : (t.chunk_num * max_size == t.capacity) ≡ true =
        eq→== _ t.capacity (sym v.slots) in
      let file = eq→== (memory_size scale size_of_chunk t.capacity true) _ refl in
      let zero_plus : 0 + sum_below t.capacity (λ j. marks t (0 + j)) ≡ t.size = omega (
        arith,
        marks-sizes,
        sum_below-congr t.capacity (λ j. marks t (0 + j)) (marks t)
            (λ j l. ap (marks t) (no_shift j)),
      ) in
      let count_it : scan_from crc t t.capacity 0 0 ≡ done (some t.size) =
        scan_from-marks t.capacity 0 0 ∙ ap (λ (x : ℕ). done (some x)) zero_plus in
      rw (some_slots, bounded, slots, file, count_it, eq→== t.size t.size refl)
        (rw (eq→== t.size _ v.total) refl)
    where
      no_shift : (j : ℕ) → 0 + j ≡ j
      no_shift j = omega arith
