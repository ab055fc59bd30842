-- ===== src/PetHash/Erase.antt =====
-- A well-formed table stays well formed under `Delete`.
use pet_ps.Common.{
  ℕ, ◌+◌, ◌-◌, ◌^◌, ◌%◌, ◌<◌, ◌≤◌, true, false, ◌==◌, if◌then◌else◌, ◌≡◌, ◌≢◌, refl, ap, sym, ◌∙◌,
  arith, Bool-cases, inl, inr, ◌⊎◌, count, ne→==, eq→==, ==→eq, ==→ne, sum_below, sum_below-replace,
  sum_below-le, sum_below-const, le-sum_below,
}
use pet_ps.Common.Outcome.{done, Returns}
use pet_ps.PetHash.Chunk
use pet_ps.PetHash.Chunk.{Item, Chunk, max_size}
use pet_ps.PetHash.Find.{used, IsCounted, size-le}
use pet_ps.PetHash.Slots.{delete-IsCounted}
use pet_ps.PetHash.Table.{PetHash}
use pet_ps.PetHash.Search.{get}
use pet_ps.PetHash.Delete.{delete}
use pet_ps.PetHash.Walk.{key_walk}
use pet_ps.PetHash.Invariant.{Stored, Absent, Inv, demand, slot_load-Stored}
use pet_ps.PetHash.Lookup.{get-Stored, get-Absent, get-cases, get_internal-cases}
use pet_ps.PetHash.Removal.{all_lowered, removed, delete-removed}
use pet_ps.PetHash.Erased.{kept, emptied, erased_overflow, erased_migrating, demand-erased}

module _ (crc : ℕ → ℕ) (t : PetHash) (key p id : ℕ) where
  abbrev walked : ℕ → ℕ
  walked c = count c (key_walk crc t.chunk_num key p)

  -- What is stored after the deletion was stored before it, elsewhere.
  pub removed-Stored :
      {q c j : ℕ} → Stored (removed crc t key p id) q c j → Stored t q c j × ¬ ((c ≡ p) × (j ≡ id))
  removed-Stored {q} {c} {j} s =
      let apart : ¬ ((c ≡ p) × (j ≡ id)) =
        λ h. s.busy (rw (h.0, h.1) (emptied t.chunk_table walked p id)) in
      let (tags, value) = kept t.chunk_table walked p id c j apart in
      (
        record {
          chunk = s.chunk;
          slot = s.slot;
          busy = λ e. s.busy (tags ∙ e);
          named = sym (ap (λ (x : Item). x.first) value) ∙ s.named;
        },
        apart,
      )

  -- What is stored in another slot stays.
  pub Stored-removed :
      {q c j : ℕ}
      → Stored t q c j
      → ¬ ((c ≡ p) × (j ≡ id))
      → Stored (removed crc t key p id) q c j
        × (((removed crc t key p id).chunk_table c).value j ≡ (t.chunk_table c).value j)
  Stored-removed {q} {c} {j} s apart =
      let (tags, value) = kept t.chunk_table walked p id c j apart in
      (
        record {
          chunk = s.chunk;
          slot = s.slot;
          busy = λ e. s.busy (sym tags ∙ e);
          named = ap (λ (x : Item). x.first) value ∙ s.named;
        },
        value,
      )

  module _ {pending : ℕ → ℕ} (v : Inv crc t pending) (s : Stored t key p id) where
    size_pos : 0 < (t.chunk_table p).size
    unfolding used
    size_pos =
        let c = t.chunk_table p in
        let one : used c id ≡ 1 = rw (ne→== (c.tags id) 0 s.busy) refl in
        omega (arith, one, le-sum_below max_size id (used c) s.slot, (v.counted p s.chunk).counted)

    total_lt : t.size < 2 ^ 64
    total_lt = omega (
      arith,
      v.total,
      v.room,
      sum_below-le t.chunk_num (λ q. (t.chunk_table q).size) (λ _. max_size)
          (λ q l. size-le (t.chunk_table q) (v.counted q l)),
      sum_below-const t.chunk_num max_size,
    )

    removed-IsCounted :
        (c : ℕ) → c < t.chunk_num → IsCounted ((removed crc t key p id).chunk_table c)
    unfolding used
    removed-IsCounted c l =
        let low = all_lowered t.chunk_table (λ x. count x (key_walk crc t.chunk_num key p)) in
        let plain : IsCounted (low c) = record { counted = (v.counted c l).counted } in
        let here : IsCounted (low p) = record { counted = (v.counted p s.chunk).counted } in
        elim (Bool-cases (p == c)) [
          | inr e ↦ rw e plain
          | inl e ↦ rw e (delete-IsCounted (low p) here id s.slot s.busy)
        ]

    removed-total :
        (t.size + (2 ^ 64 - 1)) % 2 ^ 64
        ≡ sum_below t.chunk_num (λ c. ((removed crc t key p id).chunk_table c).size)
    unfolding Chunk.delete
    removed-total =
        let t' = removed crc t key p id in
        let step =
          sum_below-replace t.chunk_num p (λ c. (t.chunk_table c).size)
            (λ c. (t'.chunk_table c).size) s.chunk
            (λ c l ne. rw (ne→== p c (λ e. ne (sym e))) refl) in
        let here : (t'.chunk_table p).size ≡ ((t.chunk_table p).size + 255) % 256 =
          rw (eq→== p p refl) refl in
        omega (
          arith,
          step,
          here,
          size_pos,
          total_lt,
          size-le (t.chunk_table p) (v.counted p s.chunk),
          v.total,
          le-sum_below t.chunk_num p (λ c. (t.chunk_table c).size) s.chunk,
        )

    removed-covered :
        (c : ℕ)
        → c < t.chunk_num
        → let t' = removed crc t key p id in
          ((t'.chunk_table c).overflow_count ≤ 255)
          × (((t'.chunk_table c).overflow_count ≡ 255)
              ⊎ (demand crc t.chunk_num t'.chunk_table c + pending c
                  ≤ (t'.chunk_table c).overflow_count))
    removed-covered c l =
        let less = demand-erased t.chunk_table walked p id crc t.chunk_num c s.chunk s.slot in
        let count_it = erased_overflow t.chunk_table walked p id c in
        let load = slot_load-Stored crc t key p id c s in
        elim (v.covered c l) [
          | inl full ↦ (ground (arith, count_it, full), inl (ground (arith, count_it, full)))
          | inr enough ↦ (
            ground (arith, count_it, v.bytes c l),
            elim (Bool-cases ((t.chunk_table c).overflow_count == 255)) [
              | inl e ↦ inl (ground (arith, count_it, e))
              | inr e ↦ inr (ground (arith, count_it, e, less, load, enough))
            ],
          )
        ]

    pub removed-Inv : Inv crc (removed crc t key p id) pending
    removed-Inv = record {
      width = v.width;
      power = v.power;
      room = v.room;
      slots = v.slots;
      counted = removed-IsCounted;
      bytes = λ c l. (removed-covered c l).0;
      settled = λ c l. erased_migrating t.chunk_table walked p id c ∙ v.settled c l;
      tagged = λ q c j h.
          let (h', apart) = removed-Stored h in
          (kept t.chunk_table walked p id c j apart).0 ∙ v.tagged q c j h';
      placed = λ q c j h. v.placed q c j (removed-Stored h).0;
      unique = λ q c j c' j' h h'. v.unique q c j c' j' (removed-Stored h).0 (removed-Stored h').0;
      covered = λ c l. (removed-covered c l).1;
      total = removed-total;
    }

module _ (crc : ℕ → ℕ) {t : PetHash} {pending : ℕ → ℕ} (v : Inv crc t pending) where
  removed-Absent : (key p id : ℕ) → Stored t key p id → Absent (removed crc t key p id) key
  removed-Absent key p id s c j h =
      let (h', apart) = removed-Stored crc t key p id h in apart (v.unique key c j p id h' s)

  -- The other keys read the same.
  removed-get :
      (key p id q : ℕ)
      → Stored t key p id
      → q ≢ key
      → get crc (removed crc t key p id) q ≡ get crc t q
  removed-get key p id q s ne =
      let v' = removed-Inv crc t key p id v s in
      elim (get-cases crc v q) [
        | inl (c, j, h) ↦
            let apart : ¬ ((c ≡ p) × (j ≡ id)) = λ e.
              let same : ((t.chunk_table c).value j).first ≡ ((t.chunk_table p).value id).first =
                rw (e.0, e.1) refl in
              ne (sym h.named ∙ same ∙ s.named) in
            let (h', value) = Stored-removed crc t key p id h apart in
            get-Stored crc v' q c j h'
            ∙ ap (λ (x : Item). done (x.second, true)) value
            ∙ sym (get-Stored crc v q c j h)
        | inr none_stored ↦
            get-Absent crc v' q (λ c j h. none_stored c j (removed-Stored crc t key p id h).0)
            ∙ sym (get-Absent crc v q none_stored)
      ]

  -- In a well-formed table `Delete` returns a well-formed table of as many chunks, in which the key
  -- is not stored and every other key reads as before.
  pub delete-get :
      (key : ℕ)
      → Returns (delete crc t key) (λ t'.
        Inv crc t' pending
        × (t'.chunk_num ≡ t.chunk_num)
        × ((q : ℕ) → get crc t' q ≡ (if q == key then done (0, false) else get crc t q)))
  unfolding delete
  delete-get key = elim (get_internal-cases crc v key) [
    | inl (p, id, s, _) ↦ (
      removed crc t key p id,
      delete-removed crc v key p id s,
      (
        removed-Inv crc t key p id v s,
        refl,
        λ q. elim (Bool-cases (q == key)) [
          | inl e ↦
              rw (e, ==→eq q key e)
                (get-Absent crc (removed-Inv crc t key p id v s) key (removed-Absent key p id s))
          | inr e ↦ rw e (removed-get key p id q s (==→ne q key e))
        ],
      ),
    )
    | inr (none_stored, e) ↦ (
      t,
      rw (e, delete) refl,
      (
        v,
        refl,
        λ q. elim (Bool-cases (q == key)) [
          | inl same ↦ rw (same, ==→eq q key same) (get-Absent crc v key none_stored)
          | inr apart ↦ rw apart refl
        ],
      ),
    )
  ]
