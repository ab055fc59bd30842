-- ===== src/PetHash/Recount.antt =====
-- The second pass of `Reload`.
use pet_ps.Common.{
  ℕ, zero, suc, ◌<◌, ◌≤◌, ◌==◌, sum_below, ◌≡◌, refl, sym, ap, ◌∙◌, arith, Bool-cases, inl, inr,
  ◌⊎◌, ==→ne, subst,
}
use pet_ps.Common.Outcome.{◌>>=◌, Returns}
use pet_ps.PetHash.Chunk.{max_size}
use pet_ps.PetHash.Find.{used}
use pet_ps.PetHash.Table.{PetHash, step_of, home_chunk}
use pet_ps.PetHash.Invariant.{Stored, Inv, slot_load, chunk_load, demand}
use pet_ps.PetHash.Reload.{mark_slot, mark_slots, mark_chunks}
use pet_ps.PetHash.Marked.{
  maxed, Marked, Bytes, Marked-refl, Marked-trans, Marked-Bytes, mark_path-Marked, Marked-congr,
}

-- What a slot of a table demands, the first slots of a chunk, and the first chunks.
abbrev pub slot_of : (ℕ → ℕ) → PetHash → ℕ → ℕ → ℕ → ℕ
slot_of crc x p id c = slot_load crc x.chunk_num x.chunk_table c p id

abbrev pub slots_of : (ℕ → ℕ) → PetHash → ℕ → ℕ → ℕ → ℕ
slots_of crc x p k c = sum_below k (λ id. slot_of crc x p id c)

abbrev pub chunks_of : (ℕ → ℕ) → PetHash → ℕ → ℕ → ℕ
chunks_of crc x k c = sum_below k (λ p. slots_of crc x p max_size c)

mark_slot-here :
    (crc : ℕ → ℕ) (t : PetHash) (p id : ℕ)
    → Inv crc (maxed t) (λ _. 0)
    → p < t.chunk_num
    → id < max_size
    → Bytes t
    → Returns (mark_slot crc t p id) (λ t'. Marked t t' (slot_of crc (maxed t) p id))
unfolding mark_slot slot_load
mark_slot-here crc t p id v l k b =
    let key = ((t.chunk_table p).value id).first in
    elim (Bool-cases ((t.chunk_table p).tags id == 0)) [
      | inl e ↦ (t, rw (mark_slot, e) refl, Marked-refl t _ b (λ c. rw (slot_load, e) refl))
      | inr e ↦
          let s : Stored (maxed t) key p id = record {
            chunk = l;
            slot = k;
            busy = ==→ne _ 0 e;
            named = refl;
          } in
          let (t', run, m) =
            mark_path-Marked (step_of crc key) p t.chunk_num (home_chunk t.chunk_num key) t
              (v.placed key p id s) b in
          (t', rw (mark_slot, e) run, Marked-congr t t' _ _ (λ c. rw (slot_load, e) refl) m)
    ]

demand-maxed :
    (crc : ℕ → ℕ) (t : PetHash) (c : ℕ)
    → demand crc t.chunk_num t.chunk_table c ≡ chunks_of crc (maxed t) t.chunk_num c
unfolding demand chunk_load slot_load
demand-maxed crc t c = refl

Stored-maxed : {t : PetHash} {key c j : ℕ} → Stored t key c j → Stored (maxed t) key c j
Stored-maxed s = record { chunk = s.chunk; slot = s.slot; busy = s.busy; named = s.named }

-- What is left to show once the rest is well formed.
settled-Inv :
    (crc : ℕ → ℕ) (t : PetHash)
    → Inv crc (maxed t) (λ _. 0)
    → Bytes t
    → ((c : ℕ)
        → c < t.chunk_num
        → ((t.chunk_table c).overflow_count ≡ 255)
          ⊎ (chunks_of crc (maxed t) t.chunk_num c ≤ (t.chunk_table c).overflow_count))
    → Inv crc t (λ _. 0)
unfolding used
settled-Inv crc t v b covers = record {
  width = v.width;
  power = v.power;
  room = v.room;
  slots = v.slots;
  counted = λ c l. record { counted = (v.counted c l).counted };
  bytes = b;
  settled = v.settled;
  tagged = λ key c j s. v.tagged key c j (Stored-maxed s);
  placed = λ key c j s. v.placed key c j (Stored-maxed s);
  unique = λ key c j c' j' s s'. v.unique key c j c' j' (Stored-maxed s) (Stored-maxed s');
  covered = λ c l. elim (covers c l) [
    | inl top ↦ inl top
    | inr more ↦ inr (omega (arith, more, demand-maxed crc t c))
  ];
  total = v.total;
}

module _ (crc : ℕ → ℕ) (b₀ : PetHash) (v : Inv crc (maxed b₀) (λ _. 0)) where
  mark_slot-Marked :
      (p id : ℕ) (t : PetHash)
      → maxed t ≡ maxed b₀
      → p < b₀.chunk_num
      → id < max_size
      → Bytes t
      → Returns (mark_slot crc t p id) (λ t'. Marked t t' (slot_of crc (maxed b₀) p id))
  mark_slot-Marked p id t e l k b =
      let v' = subst (λ (x : PetHash). Inv crc x (λ _. 0)) (sym e) v in
      let l' : p < t.chunk_num = omega (arith, l, ap (λ (x : PetHash). x.chunk_num) e) in
      let (t', run, m) = mark_slot-here crc t p id v' l' k b in
      (t', run, Marked-congr t t' _ _ (λ c. ap (λ (x : PetHash). slot_of crc x p id c) e) m)

  mark_slots-Marked :
      (p k : ℕ) (t : PetHash)
      → maxed t ≡ maxed b₀
      → p < b₀.chunk_num
      → k ≤ max_size
      → Bytes t
      → Returns (mark_slots crc t p k) (λ t'. Marked t t' (slots_of crc (maxed b₀) p k))
  unfolding mark_slots sum_below
  mark_slots-Marked p zero t e l h b = (t, refl, Marked-refl t (λ c. 0) b (λ c. refl))
  mark_slots-Marked p (suc k) t e l h b =
      let (t₁, run, m) = mark_slots-Marked p k t e l (omega arith) b in
      let (t₂, run', m') =
        mark_slot-Marked p k t₁ (m.same ∙ e) l (omega arith) (Marked-Bytes t t₁ _ m) in
      (
        t₂,
        rw (mark_slots, ◌>>=◌, run) run',
        Marked-trans t t₁ t₂ (slots_of crc (maxed b₀) p k) (slot_of crc (maxed b₀) p k) _ m m'
            (λ c. omega arith),
      )

  mark_chunks-Marked :
      (k : ℕ) (t : PetHash)
      → maxed t ≡ maxed b₀
      → k ≤ b₀.chunk_num
      → Bytes t
      → Returns (mark_chunks crc t k) (λ t'. Marked t t' (chunks_of crc (maxed b₀) k))
  unfolding mark_chunks sum_below
  mark_chunks-Marked zero t e h b = (t, refl, Marked-refl t (λ c. 0) b (λ c. refl))
  mark_chunks-Marked (suc k) t e h b =
      let (t₁, run, m) = mark_chunks-Marked k t e (omega arith) b in
      let (t₂, run', m') =
        mark_slots-Marked k max_size t₁ (m.same ∙ e) (omega arith) (omega arith)
          (Marked-Bytes t t₁ _ m) in
      (
        t₂,
        rw (mark_chunks, ◌>>=◌, run) run',
        Marked-trans t t₁ t₂ (chunks_of crc (maxed b₀) k) (slots_of crc (maxed b₀) k max_size) _ m
            m' (λ c. omega arith),
      )

  -- The second pass over a table whose counters are 0 makes it well formed.
  pub mark_chunks-Inv :
      ((c : ℕ) → c < b₀.chunk_num → (b₀.chunk_table c).overflow_count ≡ 0)
      → Returns
          (mark_chunks crc b₀ b₀.chunk_num)
          (λ t'. Inv crc t' (λ _. 0) × (maxed t' ≡ maxed b₀))
  mark_chunks-Inv zeros =
      let (t', run, m) =
        mark_chunks-Marked b₀.chunk_num b₀ refl (omega arith) (λ c l. omega (arith, zeros c l)) in
      let num = ap (λ (x : PetHash). x.chunk_num) m.same in
      (
        t',
        run,
        (
          settled-Inv crc t' (subst (λ (x : PetHash). Inv crc x (λ _. 0)) (sym m.same) v)
              (λ c l. (m.raised c (omega (arith, num, l))).0)
              (λ c l.
                let load = ap (λ (x : PetHash). chunks_of crc x x.chunk_num c) m.same in
                elim (m.raised c (omega (arith, num, l))).1 [
                  | inl top ↦ inl top
                  | inr more ↦ inr (omega (arith, more, load))
                ]),
          m.same,
        ),
      )
