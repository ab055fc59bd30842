-- ===== src/PetHash/Fill.antt =====
-- The last step of `Insert`: the entry is put in a free slot of the chunk it has reached.
use pet_ps.Common.{
  ℕ, ◌+◌, ◌^◌, ◌%◌, ◌<◌, ◌≤◌, true, ◌==◌, if◌then◌else◌, ◌≡◌, refl, ap, sym, ◌∙◌, arith, Bool-cases,
  inl, inr, ◌⊎◌, ne→==, eq→==, ==→eq, ==→ne, sum_below, sum_below-replace, sum_below-le,
  sum_below-const, count, subst,
}
use pet_ps.Common.Outcome.{done}
use pet_ps.PetHash.Chunk
use pet_ps.PetHash.Chunk.{Item, Chunk, max_size}
use pet_ps.PetHash.Find.{IsCounted, size-le}
use pet_ps.PetHash.Slots.{filled-IsCounted}
use pet_ps.PetHash.Table.{PetHash, tag_of}
use pet_ps.PetHash.Search.{get}
use pet_ps.PetHash.Probe.{tag_of-ne-zero}
use pet_ps.PetHash.Walk.{key_walk, KeyArrives}
use pet_ps.PetHash.Invariant.{
  Stored, Absent, Inv, demand, slot_load, slot_load-Stored, demand-replace,
}
use pet_ps.PetHash.Lookup.{get-Stored, get-Absent, get-cases}
use pet_ps.PetHash.Filled.{
  put, put_here, put_kept, put_rest, put_Stored, put_Stored_other, Stored_put-cases,
}

module _ (crc : ℕ → ℕ) {t : PetHash} {pending : ℕ → ℕ} (v : Inv crc t pending) (key value p id : ℕ)
    (arrives : KeyArrives crc t.chunk_num key p)
    (passed : (c : ℕ) → pending c ≡ count c (key_walk crc t.chunk_num key p))
    (none_stored : Absent t key) (l : p < t.chunk_num) (k : id < max_size)
    (free : (t.chunk_table p).tags id ≡ 0) (room : (t.chunk_table p).size < max_size) where
  after : PetHash
  after = put crc t key value p id

  put-IsCounted : (c : ℕ) → c < t.chunk_num → IsCounted (after.chunk_table c)
  unfolding after
  put-IsCounted c m = elim (Bool-cases (p == c)) [
    | inr e ↦ rw e (v.counted c m)
    | inl e ↦ rw e (
        filled-IsCounted (t.chunk_table p) (v.counted p l) id key value (tag_of crc key) room k free
          (tag_of-ne-zero crc key))
  ]

  put_total : (t.size + 1) % 2 ^ 64 ≡ sum_below t.chunk_num (λ c. (after.chunk_table c).size)
  unfolding Chunk.set after
  put_total =
      let step =
        sum_below-replace t.chunk_num p (λ c. (t.chunk_table c).size)
          (λ c. (after.chunk_table c).size) l (λ c m ne. rw (ne→== p c (λ e. ne (sym e))) refl) in
      let here : (after.chunk_table p).size ≡ ((t.chunk_table p).size + 1) % 256 =
        rw (eq→== p p refl) refl in
      omega (
        arith,
        step,
        here,
        room,
        v.total,
        v.room,
        sum_below-le t.chunk_num (λ c. (after.chunk_table c).size) (λ _. max_size)
            (λ c m. size-le (after.chunk_table c) (put-IsCounted c m)),
        sum_below-const t.chunk_num max_size,
      )

  -- The new entry's demand is what the walk has counted before.
  put_demand :
      (c : ℕ)
      → demand crc t.chunk_num after.chunk_table c
        ≡ demand crc t.chunk_num t.chunk_table c + pending c
  unfolding after Chunk.set slot_load
  put_demand c =
      let change =
        demand-replace crc t.chunk_num c p id t.chunk_table after.chunk_table l k
          (λ q m ne. rw (ne→== p q (λ e. ne (sym e))) refl)
          (λ j ne. rw (eq→== p p refl, ne→== id j (λ e. ne (sym e))) refl)
          (λ j ne. rw (eq→== p p refl, ne→== id j (λ e. ne (sym e))) refl) in
      let new = slot_load-Stored crc after key p id c (put_Stored crc t key value p id l k) in
      let old : slot_load crc t.chunk_num t.chunk_table c p id ≡ 0 = rw free refl in
      omega (arith, change, new, old, passed c)

  put_covered :
      (c : ℕ)
      → c < t.chunk_num
      → ((after.chunk_table c).overflow_count ≡ 255)
        ⊎ (demand crc t.chunk_num after.chunk_table c + 0 ≤ (after.chunk_table c).overflow_count)
  put_covered c m =
      let same = (put_rest crc t key value p id c).0 in
      elim (v.covered c m) [
        | inl full ↦ inl (unfold after in (same ∙ full))
        | inr enough ↦ inr (unfold after in omega (arith, same, put_demand c, enough))
      ]

  put_tagged : (q c j : ℕ) → Stored after q c j → (after.chunk_table c).tags j ≡ tag_of crc q
  unfolding after
  put_tagged q c j s = elim (Stored_put-cases crc t key value p id s) [
    | inl (ec, ej, eq) ↦ rw (ec, ej, eq) (put_here crc t key value p id).0
    | inr (s', apart) ↦ (put_kept crc t key value p id c j apart).0 ∙ v.tagged q c j s'
  ]

  put_unique : (q c j c' j' : ℕ) → Stored after q c j → Stored after q c' j' → (c ≡ c') × (j ≡ j')
  unfolding after
  put_unique q c j c' j' s s' = elim (Stored_put-cases crc t key value p id s) [
    | inl (ec, ej, eq) ↦ elim (Stored_put-cases crc t key value p id s') [
      | inl (ec', ej', _) ↦ (ec ∙ sym ec', ej ∙ sym ej')
      | inr (o, _) ↦ absurd (none_stored c' j' (subst (λ x. Stored t x c' j') eq o))
    ]
    | inr (o, _) ↦ elim (Stored_put-cases crc t key value p id s') [
      | inl (ec', ej', eq) ↦ absurd (none_stored c j (subst (λ x. Stored t x c j) eq o))
      | inr (o', _) ↦ v.unique q c j c' j' o o'
    ]
  ]

  pub put-Inv : Inv crc (put crc t key value p id) (λ _. 0)
  unfolding after
  put-Inv = record {
    width = v.width;
    power = v.power;
    room = v.room;
    slots = v.slots;
    counted = put-IsCounted;
    bytes = λ c m. omega (arith, (put_rest crc t key value p id c).0, v.bytes c m);
    settled = λ c m. (put_rest crc t key value p id c).1 ∙ v.settled c m;
    tagged = put_tagged;
    placed = λ q c j s. elim (Stored_put-cases crc t key value p id s) [
      | inl (ec, ej, eq) ↦ rw (ec, eq) arrives
      | inr (s', _) ↦ v.placed q c j s'
    ];
    unique = put_unique;
    covered = put_covered;
    total = put_total;
  }

  -- The key reads its value, and the other keys what they read before.
  pub put-get :
      (q : ℕ)
      → get crc (put crc t key value p id) q
        ≡ (if q == key then done (value, true) else get crc t q)
  put-get q = elim (Bool-cases (q == key)) [
    | inl e ↦
        rw (e, ==→eq q key e)
          (get-Stored crc put-Inv key p id (put_Stored crc t key value p id l k)
            ∙ ap (λ (x : Item). done (x.second, true)) (put_here crc t key value p id).1)
    | inr e ↦ elim (get-cases crc v q) [
      | inl (c, j, s) ↦
          let (s', val) = put_Stored_other crc t key value p id s free in
          rw e (
            get-Stored crc put-Inv q c j s'
            ∙ ap (λ (x : Item). done (x.second, true)) val
            ∙ sym (get-Stored crc v q c j s))
      | inr a ↦ rw e (
          get-Absent crc put-Inv q (λ c j s. elim (Stored_put-cases crc t key value p id s) [
            | inl (_, _, eq) ↦ ==→ne q key e eq
            | inr (o, _) ↦ a c j o
          ])
          ∙ sym (get-Absent crc v q a))
    ]
  ]
