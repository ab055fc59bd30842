-- ===== src/PetHash/Assign.antt =====
-- The assignment to the value of a stored entry.
use pet_ps.Common.{
  ℕ, true, ◌==◌, if◌then◌else◌, ◌≡◌, ◌≢◌, refl, ap, sym, ◌∙◌, arith, Bool-cases, inl, inr, ne→==,
  eq→==, ==→eq, ==→ne, sum_below, sum_below-congr,
}
use pet_ps.Common.Outcome.{done}
use pet_ps.PetHash.Chunk.{Chunk, max_size}
use pet_ps.PetHash.Find.{used}
use pet_ps.PetHash.Table.{PetHash}
use pet_ps.PetHash.Search.{get}
use pet_ps.PetHash.Insert.{assign}
use pet_ps.PetHash.Invariant.{Stored, Inv, demand, slot_load, chunk_load}
use pet_ps.PetHash.Lookup.{get-Stored, get-Absent, get-cases}

module _ (t : PetHash) (p id value : ℕ) where
  -- What the assignment keeps of each chunk.
  pub record SameKeys (c d : Chunk) : Type 0 where
    pub tags : c.tags ≡ d.tags
    pub keys : (j : ℕ) → (c.value j).first ≡ (d.value j).first
    pub size : c.size ≡ d.size
    pub overflow : c.overflow_count ≡ d.overflow_count
    pub is_migrating : c.is_migrating ≡ d.is_migrating

  pub assign_keys : (c : ℕ) → SameKeys ((assign t p id value).chunk_table c) (t.chunk_table c)
  assign_keys c = elim (Bool-cases (p == c)) [
    | inr e ↦ rw e (record {
      tags = refl;
      keys = λ j. refl;
      size = refl;
      overflow = refl;
      is_migrating = refl;
    })
    | inl e ↦
        rw (e, ==→eq p c e)
          (record {
            tags = refl;
            keys = λ j. elim (Bool-cases (id == j)) [
              | inl h ↦ rw (h, ==→eq id j h) refl
              | inr h ↦ rw h refl
            ];
            size = refl;
            overflow = refl;
            is_migrating = refl;
          })
  ]

  assigned : (((assign t p id value).chunk_table p).value id).second ≡ value
  assigned = rw (eq→== p p refl, eq→== id id refl) refl

  assign_other :
      (c j : ℕ)
      → ¬ ((c ≡ p) × (j ≡ id))
      → (((assign t p id value).chunk_table c).value j).second ≡ ((t.chunk_table c).value j).second
  assign_other c j h = elim (Bool-cases (p == c)) [
    | inr e ↦ rw e refl
    | inl e ↦
        let same : p ≡ c = ==→eq p c e in
        let apart : id ≢ j = λ i. h (sym same, sym i) in
        rw (e, ne→== id j apart) (ap (λ (q : ℕ). ((t.chunk_table q).value j).second) same)
  ]

  pub assign_Stored : {key c j : ℕ} → Stored t key c j → Stored (assign t p id value) key c j
  assign_Stored {key} {c} {j} s =
      let e = assign_keys c in
      record {
        chunk = s.chunk;
        slot = s.slot;
        busy = λ h. s.busy (sym (ap (λ (g : ℕ → ℕ). g j) e.tags) ∙ h);
        named = e.keys j ∙ s.named;
      }

  pub Stored_assign : {key c j : ℕ} → Stored (assign t p id value) key c j → Stored t key c j
  Stored_assign {key} {c} {j} s =
      let e = assign_keys c in
      record {
        chunk = s.chunk;
        slot = s.slot;
        busy = λ h. s.busy (ap (λ (g : ℕ → ℕ). g j) e.tags ∙ h);
        named = sym (e.keys j) ∙ s.named;
      }

  demand-assign :
      (crc : ℕ → ℕ) (n c : ℕ)
      → demand crc n (assign t p id value).chunk_table c ≡ demand crc n t.chunk_table c
  unfolding demand chunk_load slot_load
  demand-assign crc n c = sum_below-congr n _ _ (λ q l.
      sum_below-congr max_size _ _ (λ j m. rw ((assign_keys q).tags, (assign_keys q).keys j) refl))

module _ (crc : ℕ → ℕ) {t : PetHash} {pending : ℕ → ℕ} (v : Inv crc t pending) where
  pub assign-Inv : (p id value : ℕ) → Inv crc (assign t p id value) pending
  unfolding used
  assign-Inv p id value =
      let same = assign_keys t p id value in
      record {
        width = v.width;
        power = v.power;
        room = v.room;
        slots = v.slots;
        counted = λ c l. record {
          counted =
              (same c).size
              ∙ (v.counted c l).counted
              ∙ sym (
                  ap (λ (g : ℕ → ℕ). sum_below max_size (λ i. if g i == 0 then 0 else 1))
                    (same c).tags);
        };
        bytes = λ c l. omega (arith, (same c).overflow, v.bytes c l);
        settled = λ c l. (same c).is_migrating ∙ v.settled c l;
        tagged = λ key c j s.
            ap (λ (g : ℕ → ℕ). g j) (same c).tags ∙ v.tagged key c j (Stored_assign t p id value s);
        placed = λ key c j s. v.placed key c j (Stored_assign t p id value s);
        unique = λ key c j c' j' s s'.
            v.unique key c j c' j' (Stored_assign t p id value s) (Stored_assign t p id value s');
        covered = λ c l. elim (v.covered c l) [
          | inl full ↦ inl ((same c).overflow ∙ full)
          | inr enough ↦ inr (
              omega
                (arith, (same c).overflow, enough, demand-assign t p id value crc t.chunk_num c))
        ];
        total =
            v.total
            ∙ sum_below-congr t.chunk_num (λ q. (t.chunk_table q).size)
                (λ q. ((assign t p id value).chunk_table q).size) (λ q _. sym (same q).size);
      }

  -- The key reads the new value, and the other keys what they read before.
  pub assign-get :
      (key p id value q : ℕ)
      → Stored t key p id
      → get crc (assign t p id value) q ≡ (if q == key then done (value, true) else get crc t q)
  assign-get key p id value q s =
      let v' = assign-Inv p id value in
      elim (Bool-cases (q == key)) [
        | inl e ↦
            rw (e, ==→eq q key e)
              (get-Stored crc v' key p id (assign_Stored t p id value s)
                ∙ ap (λ (x : ℕ). done (x, true)) (assigned t p id value))
        | inr e ↦ elim (get-cases crc v q) [
          | inr a ↦ rw e (
              get-Absent crc v' q (λ c j h. a c j (Stored_assign t p id value h))
              ∙ sym (get-Absent crc v q a))
          | inl (c, j, h) ↦
              let apart : ¬ ((c ≡ p) × (j ≡ id)) = λ e'.
                let same : ((t.chunk_table c).value j).first ≡ ((t.chunk_table p).value id).first =
                  rw (e'.0, e'.1) refl in
                ==→ne q key e (sym h.named ∙ same ∙ s.named) in
              rw e (
                get-Stored crc v' q c j (assign_Stored t p id value h)
                ∙ ap (λ (x : ℕ). done (x, true)) (assign_other t p id value c j apart)
                ∙ sym (get-Stored crc v q c j h))
        ]
      ]
