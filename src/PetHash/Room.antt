-- ===== src/PetHash/Room.antt =====
-- `Insert` and `Set` without `check_func` into a table that is not full.
use pet_ps.Common.{
  ℕ, zero, suc, ◌+◌, ◌<◌, ◌≤◌, Bool, true, false, ◌==◌, if◌then◌else◌, ◌≡◌, refl, ◌∙◌, arith,
  Bool-cases, inl, inr, subst, ltb, ltb→lt, none, ==→eq, ==→ne,
}
use pet_ps.Common.Outcome.{done, Returns}
use pet_ps.PetHash.Chunk.{max_size}
use pet_ps.PetHash.Table.{PetHash, full}
use pet_ps.PetHash.Search.{get}
use pet_ps.PetHash.Insert.{expire, insert_from}
use pet_ps.PetHash.Invariant.{Stored, Inv}
use pet_ps.PetHash.Steps.{step_room, step_on}
use pet_ps.PetHash.Bump.{moved, moved-get, moved_entries}
use pet_ps.PetHash.Filled.{put}
use pet_ps.PetHash.Insertion.{
  reached, reached_all, full_of_chunks, Underway, find-Underway, ends, goes_on,
}

plus_one : (m : ℕ) → m + 1 ≡ suc m
plus_one m = omega arith

module _ (crc : ℕ → ℕ) (key value : ℕ) (force_insert : Bool) where
  -- The new table is well formed and has the entry at the slot, and the other keys read as in `t`.
  pub record Inserted (t : PetHash) (result : PetHash × ℕ × ℕ) : Type 0 where
    pub sound : Inv crc result.0 (λ _. 0)
    pub num : result.0.chunk_num ≡ t.chunk_num
    pub entry : Stored result.0 key result.1 result.2
    pub reads :
        (q : ℕ) → get crc result.0 q ≡ (if q == key then done (value, true) else get crc t q)

  abbrev Before : PetHash → ℕ → Type 0
  Before t m = (j : ℕ) → j < m → max_size ≤ (t.chunk_table (reached crc t.chunk_num key j)).size

  -- When every chunk of the walk is full, so is the table.
  last_round :
      (t : PetHash) (m pos : ℕ)
      → Underway crc key value t m pos
      → t.chunk_num ≤ suc m
      → Before t (suc m)
      → full t ≡ true
  last_round t m pos u all before = full_of_chunks crc t u.sound (λ p l.
      let (j, less, e) = reached_all crc t.chunk_num u.sound.width key p u.sound.power l in
      subst (λ x. max_size ≤ (t.chunk_table x).size) e (before j (omega arith)))

  Before-suc :
      (t : PetHash) (m pos : ℕ)
      → pos ≡ reached crc t.chunk_num key m
      → Before t m
      → max_size ≤ (t.chunk_table pos).size
      → Before t (suc m)
  Before-suc t m pos place before h j l = elim (Bool-cases (j == m)) [
    | inl e ↦
        let same : pos ≡ reached crc t.chunk_num key j = rw (==→eq j m e) place in
        subst (λ x. max_size ≤ (t.chunk_table x).size) same h
    | inr e ↦ before j (omega (arith, ==→ne j m e))
  ]

  pub insert_from-room :
      (left m pos : ℕ) (t : PetHash)
      → Underway crc key value t m pos
      → m + left ≡ t.chunk_num
      → full t ≡ false
      → Before t m
      → Returns (insert_from crc key value none force_insert left m t pos) (Inserted t)
  insert_from-room zero m pos t u rounds not_full before = absurd (omega (arith, u.inside))
  insert_from-room (suc left) m pos t u rounds not_full before =
      let miss = find-Underway crc key value t m pos u in
      let swept : expire crc none t pos ≡ done t = unfold expire in refl in
      elim (Bool-cases (ltb (t.chunk_table pos).size max_size)) [
        | inl room ↦
            let (id, run, v, entry, reads) = ends crc key value t m pos u (ltb→lt _ _ room) in
            (
              (put crc t key value pos id, pos, id),
              step_room crc key value none force_insert left m pos t t swept miss room run,
              record { sound = v; num = refl; entry = entry; reads = reads },
            )
        | inr no_room ↦
            let before' = Before-suc t m pos u.place before (ground arith) in
            elim (Bool-cases (ltb (suc m) t.chunk_num)) [
              | inr last ↦
                  absurd (cc (last_round t m pos u (ground (arith, last)) before', not_full))
              | inl more ↦
                  let u' = goes_on crc key value t m pos u (ltb→lt _ _ more) in
                  let (result, run, done_it) =
                    insert_from-room left (suc m) _ (moved t pos) u' (omega arith)
                      (unfold full in not_full)
                      (λ j l. rw (moved_entries t pos _).size (before' j l)) in
                  (
                    result,
                    step_on crc key value none force_insert left m pos t t swept miss no_room
                          not_full
                        ∙ rw (plus_one m) run,
                    record {
                      sound = done_it.sound;
                      num = done_it.num;
                      entry = done_it.entry;
                      reads = λ q. done_it.reads q ∙ rw (moved-get crc u.sound pos q) refl;
                    },
                  )
            ]
      ]
