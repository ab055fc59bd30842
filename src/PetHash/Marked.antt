-- ===== src/PetHash/Marked.antt =====
-- Overflow counters that a pass of `Reload` has raised.
use pet_ps.Common.{
  ℕ, zero, suc, ◌+◌, ◌<◌, ◌≤◌, ◌==◌, if◌then◌else◌, count, ◌≡◌, refl, ap, ◌∙◌, arith, Bool-cases,
  inl, inr, ◌⊎◌, ==→eq, ==→ne,
}
use pet_ps.Common.Outcome.{Returns}
use mathlib.Core.Path.{fun_ext}
use pet_ps.PetHash.Chunk
use pet_ps.PetHash.Chunk.{Item, Chunk, max_size}
use pet_ps.PetHash.Table.{PetHash, next_pos}
use pet_ps.PetHash.Walk.{walk, Arrives}
use pet_ps.PetHash.Bump.{moved, moved_overflow}
use pet_ps.PetHash.Reload.{mark_path}

-- The table with every counter at its maximum: what does not depend on the counters.
abbrev pub full_counter : Chunk → Chunk
full_counter c = record c { overflow_count = 255 }

abbrev pub maxed : PetHash → PetHash
maxed t = record t { chunk_table = λ c. full_counter (t.chunk_table c) }

-- A counter has gone up by `w`, or to its end.
abbrev pub Raised : ℕ → ℕ → ℕ → Type 0
Raised o o' w = (o' ≤ 255) × ((o' ≡ 255) ⊎ (o + w ≤ o'))

pub record Marked (t t' : PetHash) (w : ℕ → ℕ) : Type 0 where
  pub same : maxed t' ≡ maxed t
  pub raised :
      (c : ℕ)
      → c < t.chunk_num
      → Raised (t.chunk_table c).overflow_count (t'.chunk_table c).overflow_count (w c)

abbrev pub Bytes : PetHash → Type 0
Bytes t = (c : ℕ) → c < t.chunk_num → (t.chunk_table c).overflow_count ≤ 255

pub Marked-refl : (t : PetHash) (w : ℕ → ℕ) → Bytes t → ((c : ℕ) → w c ≡ 0) → Marked t t w
Marked-refl t w b z = record { same = refl; raised = λ c l. (b c l, inr (omega (arith, z c))) }

pub Marked-trans :
    (t₀ t₁ t₂ : PetHash) (w w' w'' : ℕ → ℕ)
    → Marked t₀ t₁ w
    → Marked t₁ t₂ w'
    → ((c : ℕ) → w'' c ≡ w c + w' c)
    → Marked t₀ t₂ w''
Marked-trans t₀ t₁ t₂ w w' w'' m m' add =
    let num : t₁.chunk_num ≡ t₀.chunk_num = ap (λ (t : PetHash). t.chunk_num) m.same in
    record {
      same = m'.same ∙ m.same;
      raised = λ c l.
          let (small, up) = m.raised c l in
          let (small', up') = m'.raised c (omega (arith, l, num)) in
          (
            small',
            elim up' [
              | inl top ↦ inl top
              | inr more' ↦ elim up [
                | inl top ↦ inl (omega (arith, top, more', small'))
                | inr more ↦ inr (omega (arith, more, more', add c))
              ]
            ],
          );
    }

pub Marked-Bytes : (t t' : PetHash) (w : ℕ → ℕ) → Marked t t' w → Bytes t'
Marked-Bytes t t' w m c l =
    (m.raised c (omega (arith, l, ap (λ (x : PetHash). x.chunk_num) m.same))).0

moved-maxed : (t : PetHash) (pos : ℕ) → maxed (moved t pos) ≡ maxed t
unfolding Chunk.inc_overflow
moved-maxed t pos =
    ap (λ (f : ℕ → Chunk). record t { chunk_table = f })
      (fun_ext (λ c. elim (Bool-cases (pos == c)) [
        | inl e ↦ rw (e, ==→eq pos c e) refl
        | inr e ↦ rw e refl
      ]))

moved-Marked :
    (t : PetHash) (pos : ℕ) → Bytes t → Marked t (moved t pos) (λ c. if pos == c then 1 else 0)
moved-Marked t pos b = record {
  same = moved-maxed t pos;
  raised = λ c l.
      let (change, small, up) = moved_overflow t pos c (b c l) in
      (small, elim change [ inl top ↦ inl top | inr plus ↦ inr (omega (arith, plus)) ]);
}

pub mark_path-Marked :
    (step target left pos : ℕ) (t : PetHash)
    → Arrives t.chunk_num step target left pos
    → Bytes t
    → Returns
        (mark_path t step target left pos)
        (λ t'. Marked t t' (λ c. count c (walk t.chunk_num step target left pos)))
unfolding mark_path walk count
mark_path-Marked step target zero pos t arrives b = absurd arrives
mark_path-Marked step target (suc left) pos t arrives b = elim (Bool-cases (pos == target)) [
  | inl hit ↦ (t, rw (hit, mark_path) refl, rw hit (Marked-refl t (λ c. 0) b (λ c. refl)))
  | inr miss ↦
      let t₁ = moved t pos in
      let next = next_pos t.chunk_num step pos in
      let m = moved-Marked t pos b in
      let (t', run, m') =
        mark_path-Marked step target left next t₁ (arrives (==→ne pos target miss))
          (Marked-Bytes t t₁ _ m) in
      (
        t',
        rw (miss, mark_path) run,
        rw miss (
            Marked-trans t t₁ t' (λ c. if pos == c then 1 else 0)
              (λ c. count c (walk t.chunk_num step target left next)) _ m m' (λ c. refl)),
      )
]

pub Marked-congr :
    (t t' : PetHash) (w w' : ℕ → ℕ) → ((c : ℕ) → w c ≡ w' c) → Marked t t' w → Marked t t' w'
Marked-congr t t' w w' h m = record {
  same = m.same;
  raised = λ c l.
      let (small, up) = m.raised c l in
      (small, elim up [ inl top ↦ inl top | inr more ↦ inr (omega (arith, more, h c)) ]);
}
