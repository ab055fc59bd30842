-- ===== src/PetHash/Repair.antt =====
-- The first pass of `Reload`.
use pet_ps.Common.{
  ℕ, zero, suc, ◌+◌, ◌<◌, ◌≤◌, false, ltb, ◌==◌, if◌then◌else◌, update, sum_below, sum_below-le,
  sum_below-const, ◌≡◌, ◌≢◌, refl, sym, ap, ◌∙◌, arith, Bool-cases, inl, inr, ==→eq, ==→ne, lt→ltb,
  ltb→lt,
}
use pet_ps.PetHash.Chunk.{Item, Chunk, max_size, empty_key}
use pet_ps.PetHash.Table.{tag_of}
use pet_ps.PetHash.Reload.{repair_slot, repair_slots, repair_chunk}

-- The slot holds an entry.
abbrev pub is_entry : Chunk → ℕ → ℕ
is_entry c id = if (c.value id).first == empty_key then 0 else 1

-- Slots without an entry have no tag.
abbrev pub IsConsistent : Chunk → Type 0
IsConsistent c = (id : ℕ) → id < max_size → (c.value id).first ≡ empty_key → c.tags id ≡ 0

module _ (crc : ℕ → ℕ) where
  -- The tag of a slot after the pass.
  abbrev pub new_tag : Chunk → ℕ → ℕ
  new_tag c id =
      if (c.value id).first == empty_key then c.tags id else tag_of crc (c.value id).first

  same_tag : (f : ℕ → ℕ) (k id s : ℕ) → update f k s id ≡ (if k == id then s else f id)
  same_tag f k id s = refl

  repair_slot-fields :
      (d : Chunk) (k : ℕ)
      → d.size < 255
      → let e = repair_slot crc d k in
        (e.value ≡ d.value)
        × (e.overflow_count ≡ d.overflow_count)
        × (e.is_migrating ≡ d.is_migrating)
        × (e.size ≡ d.size + is_entry d k)
        × ((id : ℕ) → e.tags id ≡ (if k == id then new_tag d k else d.tags id))
  unfolding repair_slot
  repair_slot-fields d k h = elim (Bool-cases ((d.value k).first == empty_key)) [
    | inl e ↦ rw e (
      refl,
      refl,
      refl,
      omega arith,
      λ id. elim (Bool-cases (k == id)) [ inl i ↦ rw (i, ==→eq k id i) refl | inr i ↦ rw i refl ],
    )
    | inr e ↦ rw e (
      refl,
      refl,
      refl,
      omega arith,
      λ id. elim (Bool-cases (d.tags k == tag_of crc (d.value k).first)) [
        | inr bad ↦ rw bad refl
        | inl good ↦ elim (Bool-cases (k == id)) [
          | inr i ↦ rw (good, i) refl
          | inl i ↦ rw (good, i) (ap d.tags (sym (==→eq k id i)) ∙ ==→eq _ _ good)
        ]
      ],
    )
  ]

  entries-le : (c : Chunk) (k : ℕ) → sum_below k (is_entry c) ≤ k
  entries-le c k =
      omega (arith, sum_below-le k (is_entry c) (λ _. 1) (λ j l. ground arith), sum_below-const k 1)

  not_below : (id : ℕ) → ltb id 0 ≡ false
  not_below id = ground arith

  -- What the pass over the first `k` slots does.
  repair_slots-fields :
      (c : Chunk) (k : ℕ)
      → c.size ≡ 0
      → k < 200
      → let d = repair_slots crc c k in
        (d.value ≡ c.value)
        × (d.overflow_count ≡ c.overflow_count)
        × (d.is_migrating ≡ c.is_migrating)
        × (d.size ≡ sum_below k (is_entry c))
        × ((id : ℕ) → d.tags id ≡ (if ltb id k then new_tag c id else c.tags id))
  unfolding repair_slots sum_below
  repair_slots-fields c zero z h = (refl, refl, refl, z, λ id. rw (not_below id) refl)
  repair_slots-fields c (suc k) z h =
      let d = repair_slots crc c k in
      let (value, over, migrating, size, tags) = repair_slots-fields c k z (omega arith) in
      let (value', over', migrating', size', tags') =
        repair_slot-fields d k (omega (arith, size, entries-le c k)) in
      let entry : is_entry d k ≡ is_entry c k =
        ap (λ (g : ℕ → Item). if (g k).first == empty_key then 0 else 1) value in
      let tag : new_tag d k ≡ new_tag c k =
        ap (λ (g : ℕ → Item). if (g k).first == empty_key then d.tags k else tag_of crc (g k).first)
          value
        ∙ ap (λ (x : ℕ). if (c.value k).first == empty_key then x else tag_of crc (c.value k).first)
            (tags k ∙ rw (lt_self k) refl) in
      (
        value' ∙ value,
        over' ∙ over,
        migrating' ∙ migrating,
        omega (arith, size', size, entry),
        λ id. tags' id ∙ elim (Bool-cases (k == id)) [
          | inl i ↦ rw (i, lt→ltb id (suc k) (omega (arith, ==→eq k id i)), sym (==→eq k id i)) tag
          | inr i ↦ rw i (tags id ∙ rw (ltb_suc k id (==→ne k id i)) refl)
        ],
      )
    where
      lt_self : (k : ℕ) → ltb k k ≡ false
      lt_self k = ground arith

      ltb_suc : (k id : ℕ) → k ≢ id → ltb id k ≡ ltb id (suc k)
      ltb_suc k id ne = elim (Bool-cases (ltb id k)) [
        | inl e ↦ e ∙ sym (lt→ltb id (suc k) (omega (arith, ltb→lt id k e)))
        | inr e ↦ ground (arith, e, ne)
      ]

  -- A consistent chunk after the pass: it is counted, and a slot has a tag exactly when it has an
  -- entry, that of the entry's key.
  pub repair_chunk-fields :
      (c : Chunk)
      → IsConsistent c
      → let d = repair_chunk crc c in
        (d.value ≡ c.value)
        × (d.overflow_count ≡ 0)
        × (d.is_migrating ≡ c.is_migrating)
        × (d.size ≡ sum_below max_size (is_entry c))
        × ((id : ℕ)
            → id < max_size
            → d.tags id
              ≡ (if (c.value id).first == empty_key then 0 else tag_of crc (c.value id).first))
  unfolding repair_chunk
  repair_chunk-fields c h =
      let c₀ : Chunk = record c { size = 0; overflow_count = 0 } in
      let (value, over, migrating, size, tags) =
        repair_slots-fields c₀ max_size refl (omega arith) in
      (
        value,
        over,
        migrating,
        size,
        λ id l. tags id ∙ elim (Bool-cases ((c.value id).first == empty_key)) [
          | inl e ↦ rw (lt→ltb id max_size l, e) (h id l (==→eq _ _ e))
          | inr e ↦ rw (lt→ltb id max_size l, e) refl
        ],
      )
