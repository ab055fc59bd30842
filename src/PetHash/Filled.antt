-- ===== src/PetHash/Filled.antt =====
-- The counters after an entry is put in place.
use pet_ps.Common.{
  ℕ, ◌+◌, ◌^◌, ◌%◌, ◌<◌, ◌==◌, ◌≡◌, ◌≢◌, refl, ap, sym, ◌∙◌, Bool-cases, inl, inr, ◌⊎◌, ne→==,
  eq→==, ==→eq, ==→ne,
}
use pet_ps.PetHash.Chunk
use pet_ps.PetHash.Chunk.{Item, Chunk, max_size}
use pet_ps.PetHash.Slots.{filled}
use pet_ps.PetHash.Table.{PetHash, tag_of}
use pet_ps.PetHash.Delete.{set_chunk}
use pet_ps.PetHash.Probe.{tag_of-ne-zero}
use pet_ps.PetHash.Invariant.{Stored}

module _ (crc : ℕ → ℕ) (t : PetHash) (key value p id : ℕ) where
  abbrev pub put : PetHash
  put = record (set_chunk t p (filled (t.chunk_table p) id key value (tag_of crc key))) {
    size = (t.size + 1) % 2 ^ 64;
  }

  -- The slot that is filled.
  pub put_here :
      ((put.chunk_table p).tags id ≡ tag_of crc key)
      × ((put.chunk_table p).value id ≡ record { first = key; second = value })
  unfolding Chunk.set
  put_here = rw (eq→== p p refl, eq→== id id refl) (refl, refl)

  -- Every other slot is kept.
  pub put_kept :
      (c j : ℕ)
      → ¬ ((c ≡ p) × (j ≡ id))
      → ((put.chunk_table c).tags j ≡ (t.chunk_table c).tags j)
        × ((put.chunk_table c).value j ≡ (t.chunk_table c).value j)
  unfolding Chunk.set
  put_kept c j h = elim (Bool-cases (p == c)) [
    | inr e ↦ rw e (refl, refl)
    | inl e ↦
        let same : p ≡ c = ==→eq p c e in
        let apart : id ≢ j = λ i. h (sym same, sym i) in
        rw (e, ne→== id j apart)
          (
            ap (λ (q : ℕ). (t.chunk_table q).tags j) same,
            ap (λ (q : ℕ). (t.chunk_table q).value j) same,
          )
  ]

  pub put_rest :
      (c : ℕ)
      → ((put.chunk_table c).overflow_count ≡ (t.chunk_table c).overflow_count)
        × ((put.chunk_table c).is_migrating ≡ (t.chunk_table c).is_migrating)
  unfolding Chunk.set
  put_rest c = elim (Bool-cases (p == c)) [
    | inr e ↦ rw e (refl, refl)
    | inl e ↦ rw (e, ==→eq p c e) (refl, refl)
  ]

  slot-cases : (c j : ℕ) → ((c ≡ p) × (j ≡ id)) ⊎ (¬ ((c ≡ p) × (j ≡ id)))
  slot-cases c j = elim (Bool-cases (c == p)) [
    | inr e ↦ inr (λ h. ==→ne c p e h.0)
    | inl e ↦ elim (Bool-cases (j == id)) [
      | inr e' ↦ inr (λ h. ==→ne j id e' h.1)
      | inl e' ↦ inl (==→eq c p e, ==→eq j id e')
    ]
  ]

  pub put_Stored : p < t.chunk_num → id < max_size → Stored put key p id
  put_Stored l k = record {
    chunk = l;
    slot = k;
    busy = λ e. tag_of-ne-zero crc key (sym put_here.0 ∙ e);
    named = ap (λ (x : Item). x.first) put_here.1;
  }

  pub put_Stored_other :
      {q c j : ℕ}
      → Stored t q c j
      → (t.chunk_table p).tags id ≡ 0
      → Stored put q c j × ((put.chunk_table c).value j ≡ (t.chunk_table c).value j)
  put_Stored_other {q} {c} {j} s free =
      let apart : ¬ ((c ≡ p) × (j ≡ id)) = λ h. s.busy (rw (h.0, h.1) free) in
      let (tags, val) = put_kept c j apart in
      (
        record {
          chunk = s.chunk;
          slot = s.slot;
          busy = λ e. s.busy (sym tags ∙ e);
          named = ap (λ (x : Item). x.first) val ∙ s.named;
        },
        val,
      )

  -- What is stored afterwards is the new entry or was stored before.
  pub Stored_put-cases :
      {q c j : ℕ}
      → Stored put q c j
      → ((c ≡ p) × (j ≡ id) × (q ≡ key)) ⊎ (Stored t q c j × ¬ ((c ≡ p) × (j ≡ id)))
  Stored_put-cases {q} {c} {j} s = elim (slot-cases c j) [
    | inl (ec, ej) ↦
        let here : ((put.chunk_table c).value j).first ≡ key =
          rw (ec, ej) (ap (λ (x : Item). x.first) put_here.1) in
        inl (ec, ej, sym s.named ∙ here)
    | inr apart ↦
        let (tags, val) = put_kept c j apart in
        inr (
          record {
            chunk = s.chunk;
            slot = s.slot;
            busy = λ e. s.busy (tags ∙ e);
            named = sym (ap (λ (x : Item). x.first) val) ∙ s.named;
          },
          apart,
        )
  ]
