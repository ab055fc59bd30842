-- ===== src/PetHash/Walk.antt =====
-- The chunks that an operation passes on its way from a key's home chunk to a target.
use pet_ps.Common.{
  ℕ, zero, suc, ◌+◌, ◌-◌, ◌^◌, ◌<◌, ◌≤◌, ◌==◌, if◌then◌else◌, ◌≡◌, ◌≢◌, refl, ap, sym, ◌∙◌, arith,
  Bool-cases, inl, inr, List, [], ◌∷◌, count, ne→==, eq→==, sum_below, sum_below-shift,
  sum_below-congr, subst,
}
use pet_ps.PetHash.Table.{step_of, home_chunk, next_pos}
use pet_ps.PetHash.Probe.{step_of_odd, home_chunk-lt, next_pos-lt, pos_at, pos_at_injective}

-- The positions before the target, with the rounds left.
unfoldable pub walk : ℕ → ℕ → ℕ → ℕ → ℕ → List ℕ
walk n step target zero pos = []
walk n step target (suc left) pos =
    if pos == target then [] else pos ∷ walk n step target left (next_pos n step pos)

-- The walk meets the target within its rounds.
abbrev pub Arrives : ℕ → ℕ → ℕ → ℕ → ℕ → Type 0
Arrives n step target zero pos = ⊥
Arrives n step target (suc left) pos =
    (pos ≢ target) → Arrives n step target left (next_pos n step pos)

pub pos_at-next :
    (n step pos m : ℕ) → pos_at n step (next_pos n step pos) m ≡ pos_at n step pos (suc m)
unfolding pos_at
pos_at-next n step pos zero = refl
pos_at-next n step pos (suc m) = ap (next_pos n step) (pos_at-next n step pos m)

-- How often the first `m` positions meet `c`.
unfoldable pub seen : ℕ → ℕ → ℕ → ℕ → ℕ → ℕ
seen n step pos m c = sum_below m (λ j. if pos_at n step pos j == c then 1 else 0)

seen-next :
    (n step pos m c : ℕ)
    → seen n step pos (suc m) c
      ≡ (if pos == c then 1 else 0) + seen n step (next_pos n step pos) m c
unfolding seen pos_at
seen-next n step pos m c =
    sum_below-shift m (λ j. if pos_at n step pos j == c then 1 else 0)
    ∙ ap (λ (t : ℕ). (if pos == c then 1 else 0) + t)
        (sum_below-congr m _ _
          (λ j l. ap (λ (t : ℕ). if t == c then 1 else 0) (sym (pos_at-next n step pos j))))

-- Where the target is first met after `m` steps, the walk passes those positions.
pub walk_first :
    (n step target left m pos : ℕ)
    → m < left
    → ((j : ℕ) → j < m → pos_at n step pos j ≢ target)
    → pos_at n step pos m ≡ target
    → Arrives n step target left pos
      × ((c : ℕ) → count c (walk n step target left pos) ≡ seen n step pos m c)
unfolding walk count pos_at
walk_first n step target zero m pos l before hit = absurd (omega arith)
walk_first n step target (suc left) zero pos l before hit =
    (λ ne. absurd (ne hit), λ c. rw (eq→== pos target hit) (unfold seen sum_below in refl))
walk_first n step target (suc left) (suc m) pos l before hit =
    let apart = before 0 (omega arith) in
    let (arrives, counts) =
      walk_first n step target left m (next_pos n step pos) (omega arith)
        (λ j k. rw (pos_at-next n step pos j) (before (suc j) (omega arith)))
        (pos_at-next n step pos m ∙ hit) in
    (
      λ _. arrives,
      λ c. rw (ne→== pos target apart) (omega (arith, counts c, seen-next n step pos m c)),
    )

-- What the operations walk for a key.
module _ (crc : ℕ → ℕ) (n : ℕ) where
  abbrev pub key_walk : ℕ → ℕ → List ℕ
  key_walk key target = walk n (step_of crc key) target n (home_chunk n key)

  abbrev pub KeyArrives : ℕ → ℕ → Type 0
  KeyArrives key target = Arrives n (step_of crc key) target n (home_chunk n key)

-- The chunk that a search reaches after `m` steps is one that the walk arrives at, by those steps.
pub walk-pos_at :
    (crc : ℕ → ℕ) (k key m : ℕ)
    → m < 2 ^ k
    → let n = 2 ^ k in
      let p = pos_at n (step_of crc key) (home_chunk n key) m in
      KeyArrives crc n key p
      × ((c : ℕ) → count c (key_walk crc n key p) ≡ seen n (step_of crc key) (home_chunk n key) m c)
walk-pos_at crc k key m l =
    let n = 2 ^ k in
    let step = step_of crc key in
    let home = home_chunk n key in
    walk_first n step (pos_at n step home m) n m home l
      (λ j less h.
        let sum : j + (m - j) ≡ m = omega arith in
        pos_at_injective k step home j (m - j) (step_of_odd crc key) (home_chunk-lt k key)
          (omega arith) (omega arith) (ap (pos_at n step home) sum ∙ sym h))
      refl

-- A walk stays inside the table.
walk-outside_from :
    (k step target left pos c : ℕ)
    → pos < 2 ^ k
    → 2 ^ k ≤ c
    → count c (walk (2 ^ k) step target left pos) ≡ 0
unfolding walk count
walk-outside_from k step target zero pos c l h = refl
walk-outside_from k step target (suc left) pos c l h = elim (Bool-cases (pos == target)) [
  | inl e ↦ rw e
  | inr e ↦
      rw (e, ne→== pos c (omega arith))
        (omega (
          arith,
          walk-outside_from k step target left (next_pos (2 ^ k) step pos) c
              (next_pos-lt k step pos) h,
        ))
]

pub walk-outside :
    (crc : ℕ → ℕ) (n k key target c : ℕ)
    → n ≡ 2 ^ k
    → n ≤ c
    → count c (key_walk crc n key target) ≡ 0
walk-outside crc n k key target c e h =
    subst (λ m. count c (key_walk crc m key target) ≡ 0) (sym e)
      (walk-outside_from k (step_of crc key) target (2 ^ k) (home_chunk (2 ^ k) key) c
        (home_chunk-lt k key) (omega arith))
