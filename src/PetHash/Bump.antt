-- ===== src/PetHash/Bump.antt =====
-- The step of `Insert` past a full chunk: its overflow counter goes up.
use pet_ps.Common.{
  ℕ, ◌+◌, ◌<◌, ◌≤◌, true, ◌==◌, if◌then◌else◌, ◌≡◌, refl, ap, sym, ◌∙◌, arith, Bool-cases, inl, inr,
  ◌⊎◌, ==→eq, sum_below, sum_below-congr,
}
use pet_ps.Common.Outcome.{done}
use pet_ps.PetHash.Chunk
use pet_ps.PetHash.Chunk.{Item, Chunk, max_size}
use pet_ps.PetHash.Find.{used}
use pet_ps.PetHash.Table.{PetHash}
use pet_ps.PetHash.Search.{get}
use pet_ps.PetHash.Delete.{set_chunk}
use pet_ps.PetHash.Invariant.{Stored, Inv, demand, demand-congr}
use pet_ps.PetHash.Lookup.{get-Stored, get-Absent, get-cases}

abbrev pub moved : PetHash → ℕ → PetHash
moved t pos = set_chunk t pos (Chunk.inc_overflow (t.chunk_table pos))

-- Two chunks that differ in the counter at most.
pub record SameEntries (c d : Chunk) : Type 0 where
  pub tags : c.tags ≡ d.tags
  pub value : c.value ≡ d.value
  pub size : c.size ≡ d.size
  pub is_migrating : c.is_migrating ≡ d.is_migrating

module _ (t : PetHash) (pos : ℕ) where
  pub moved_entries : (c : ℕ) → SameEntries ((moved t pos).chunk_table c) (t.chunk_table c)
  unfolding Chunk.inc_overflow
  moved_entries c = elim (Bool-cases (pos == c)) [
    | inl e ↦
        rw (e, ==→eq pos c e)
          (record { tags = refl; value = refl; size = refl; is_migrating = refl })
    | inr e ↦ rw e (record { tags = refl; value = refl; size = refl; is_migrating = refl })
  ]

  pub moved_Stored : {key c j : ℕ} → Stored t key c j → Stored (moved t pos) key c j
  moved_Stored {key} {c} {j} s =
      let e = moved_entries c in
      record {
        chunk = s.chunk;
        slot = s.slot;
        busy = λ h. s.busy (sym (ap (λ (g : ℕ → ℕ). g j) e.tags) ∙ h);
        named = ap (λ (g : ℕ → Item). (g j).first) e.value ∙ s.named;
      }

  pub Stored_moved : {key c j : ℕ} → Stored (moved t pos) key c j → Stored t key c j
  Stored_moved {key} {c} {j} s =
      let e = moved_entries c in
      record {
        chunk = s.chunk;
        slot = s.slot;
        busy = λ h. s.busy (ap (λ (g : ℕ → ℕ). g j) e.tags ∙ h);
        named = sym (ap (λ (g : ℕ → Item). (g j).first) e.value) ∙ s.named;
      }

  pub moved_overflow :
      (c : ℕ)
      → (t.chunk_table c).overflow_count ≤ 255
      → ((((moved t pos).chunk_table c).overflow_count ≡ 255)
          ⊎ (((moved t pos).chunk_table c).overflow_count
              ≡ (t.chunk_table c).overflow_count + (if pos == c then 1 else 0)))
        × (((moved t pos).chunk_table c).overflow_count ≤ 255)
        × ((t.chunk_table c).overflow_count ≤ ((moved t pos).chunk_table c).overflow_count)
  unfolding Chunk.inc_overflow
  moved_overflow c small = elim (Bool-cases (pos == c)) [
    | inr e ↦ rw e (inr (omega arith), small, omega arith)
    | inl e ↦
        rw (e, ==→eq pos c e)
          (elim (Bool-cases ((t.chunk_table c).overflow_count == 255)) [
            | inl h ↦ (inl (ground arith), ground arith, ground arith)
            | inr h ↦ (inr (ground arith), ground arith, ground arith)
          ])
  ]

module _ (crc : ℕ → ℕ) {t : PetHash} {pending : ℕ → ℕ} (v : Inv crc t pending) (pos : ℕ) where
  abbrev pub one_more : (ℕ → ℕ) → ℕ → ℕ → ℕ
  one_more pending pos c = pending c + (if pos == c then 1 else 0)

  moved_covered :
      (c : ℕ)
      → c < t.chunk_num
      → let t' = moved t pos in
        ((t'.chunk_table c).overflow_count ≡ 255)
        ⊎ (demand crc t.chunk_num t'.chunk_table c + one_more pending pos c
            ≤ (t'.chunk_table c).overflow_count)
  moved_covered c l =
      let t' = moved t pos in
      let same =
        demand-congr crc t.chunk_num c t'.chunk_table t.chunk_table
          (λ p. ((moved_entries t pos p).tags, (moved_entries t pos p).value)) in
      let (change, small, up) = moved_overflow t pos c (v.bytes c l) in
      elim change [
        | inl top ↦ inl top
        | inr plus ↦ elim (v.covered c l) [
          | inl full ↦ inl (omega arith)
          | inr enough ↦ inr (omega arith)
        ]
      ]

  pub moved-Inv : Inv crc (moved t pos) (one_more pending pos)
  unfolding used
  moved-Inv =
      let same = moved_entries t pos in
      record {
        width = v.width;
        power = v.power;
        room = v.room;
        slots = v.slots;
        counted = λ c l. record {
          counted =
              (same c).size
              ∙ (v.counted c l).counted
              ∙ sym (
                  ap (λ (g : ℕ → ℕ). sum_below max_size (λ i. if g i == 0 then 0 else 1))
                    (same c).tags);
        };
        bytes = λ c l. (moved_overflow t pos c (v.bytes c l)).1;
        settled = λ c l. (same c).is_migrating ∙ v.settled c l;
        tagged = λ key c j s.
            ap (λ (g : ℕ → ℕ). g j) (same c).tags ∙ v.tagged key c j (Stored_moved t pos s);
        placed = λ key c j s. v.placed key c j (Stored_moved t pos s);
        unique = λ key c j c' j' s s'.
            v.unique key c j c' j' (Stored_moved t pos s) (Stored_moved t pos s');
        covered = moved_covered;
        total =
            v.total
            ∙ sum_below-congr t.chunk_num (λ p. (t.chunk_table p).size)
                (λ p. ((moved t pos).chunk_table p).size) (λ p _. sym (same p).size);
      }

  pub moved-get : (q : ℕ) → get crc (moved t pos) q ≡ get crc t q
  moved-get q = elim (get-cases crc v q) [
    | inl (c, j, s) ↦
        get-Stored crc moved-Inv q c j (moved_Stored t pos s)
        ∙ ap (λ (g : ℕ → Item). done ((g j).second, true)) (moved_entries t pos c).value
        ∙ sym (get-Stored crc v q c j s)
    | inr a ↦
        get-Absent crc moved-Inv q (λ c j s. a c j (Stored_moved t pos s))
        ∙ sym (get-Absent crc v q a)
  ]
