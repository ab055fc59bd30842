-- ===== src/PetHash/Fading.antt =====
-- What an insertion may do to the other keys: some of them it deletes, because `check_func` lets
-- them expire or to make room.
use pet_ps.Common.{
  ℕ, zero, suc, ◌+◌, ◌-◌, false, not, ◌&&◌, ◌==◌, ◌≡◌, refl, ◌∙◌, Bool-cases, inl, inr, ◌⊎◌, leb,
  Option, some, none,
}
use pet_ps.Common.Outcome.{done, Returns}
use pet_ps.PetHash.Chunk
use pet_ps.PetHash.Chunk.{Chunk, max_size}
use pet_ps.PetHash.Table.{PetHash}
use pet_ps.PetHash.Search.{get}
use pet_ps.PetHash.Delete.{delete}
use pet_ps.PetHash.Insert.{CheckFunc, expire, expire_from}
use pet_ps.PetHash.Invariant.{Absent, Inv}
use pet_ps.PetHash.Lookup.{get-Stored, get-Absent}
use pet_ps.PetHash.Erase.{delete-get}

module _ (crc : ℕ → ℕ) where
  -- The table has as many chunks, and each key reads as before or as missing.
  abbrev pub Fades : PetHash → PetHash → Type 0
  Fades t t' =
      (t'.chunk_num ≡ t.chunk_num)
      × ((q : ℕ) → (get crc t' q ≡ get crc t q) ⊎ (get crc t' q ≡ done (0, false)))

  pub Fades-refl : (t : PetHash) → Fades t t
  Fades-refl t = (refl, λ q. inl refl)

  pub Fades-trans : (a b c : PetHash) → Fades a b → Fades b c → Fades a c
  Fades-trans a b c (e, f) (e', g) = (
    e' ∙ e,
    λ q. elim (g q) [
      | inr gone ↦ inr gone
      | inl same ↦ elim (f q) [ inl old ↦ inl (same ∙ old) | inr gone ↦ inr (same ∙ gone) ]
    ],
  )

  pub missing-Absent :
      {t : PetHash} {pending : ℕ → ℕ}
      → Inv crc t pending
      → (q : ℕ) → get crc t q ≡ done (0, false)
      → Absent t q
  missing-Absent v q h p id s = cc (h, get-Stored crc v q p id s)

  pub Fades-Absent :
      (t t' : PetHash) {pending pending' : ℕ → ℕ}
      → Inv crc t pending
      → Inv crc t' pending'
      → Fades t t'
      → (q : ℕ) → Absent t q
      → Absent t' q
  Fades-Absent t t' v v' (e, f) q a = elim (f q) [
    | inl same ↦ missing-Absent v' q (same ∙ get-Absent crc v q a)
    | inr gone ↦ missing-Absent v' q gone
  ]

  pub delete-Fades :
      {t : PetHash} {pending : ℕ → ℕ}
      → Inv crc t pending
      → (key : ℕ) → Returns (delete crc t key) (λ t'. Inv crc t' pending × Fades t t')
  delete-Fades v key =
      let (t', run, (v', num, gets)) = delete-get crc v key in
      (
        t',
        run,
        (
          v',
          (
            num,
            λ q. elim (Bool-cases (q == key)) [
              | inl e ↦ inr (rw e at (gets q))
              | inr e ↦ inl (rw e at (gets q))
            ],
          ),
        ),
      )

  pub expire_from-Fades :
      (check_func : CheckFunc) (pos left id : ℕ) {t : PetHash} {pending : ℕ → ℕ}
      → Inv crc t pending
      → Returns (expire_from crc check_func t pos left id) (λ t'. Inv crc t' pending × Fades t t')
  unfolding expire_from
  expire_from-Fades check_func pos zero id {t} v = (t, refl, (v, Fades-refl t))
  expire_from-Fades check_func pos (suc left) id {t} v =
      let it = (t.chunk_table pos).value id in
      elim (Bool-cases
        (Chunk.in_use (t.chunk_table pos) id && not (check_func it.first it.second false))) [
          | inl e ↦
              let (t₁, run, (v₁, f₁)) = delete-Fades v it.first in
              let (t₂, run', (v₂, f₂)) = expire_from-Fades check_func pos left (id + 1) v₁ in
              (t₂, rw (e, run) run', (v₂, Fades-trans t t₁ t₂ f₁ f₂))
          | inr e ↦
              let (t₂, run', rest) = expire_from-Fades check_func pos left (id + 1) v in
              (t₂, rw e run', rest)
        ]

  -- The sweep of a chunk always ends, in a well-formed table.
  pub expire-Fades :
      (check_func : Option CheckFunc) (pos : ℕ) {t : PetHash} {pending : ℕ → ℕ}
      → Inv crc t pending
      → Returns (expire crc check_func t pos) (λ t'. Inv crc t' pending × Fades t t')
  unfolding expire
  expire-Fades none pos {t} v = (t, refl, (v, Fades-refl t))
  expire-Fades (some check_func) pos {t} v =
      elim (Bool-cases (leb (max_size - 2) (t.chunk_table pos).size)) [
        | inl e ↦
            let (t', run, rest) = expire_from-Fades check_func pos max_size 0 v in
            (t', rw e run, rest)
        | inr e ↦ (t, rw e refl, (v, Fades-refl t))
      ]
