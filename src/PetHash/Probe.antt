-- ===== src/PetHash/Probe.antt =====
-- The probe sequence: with a power of two of chunks and an odd step it meets every chunk once.
use pet_ps.Common.{
  ℕ, zero, suc, ◌+◌, ◌-◌, ◌*◌, ◌/◌, ◌%◌, ◌^◌, ◌<◌, bit_or, ◌≡◌, ◌≢◌, ap, sym, ◌∙◌, arith,
}
use pet_ps.Common.Pow.{pow-pos, odd_cancel, mod_cancel, odd_solve}
use pet_ps.Common.Bits.{bit-mask}
use pet_ps.Common.Bitwise.{
  bit_and_mask, bit_or_step, bit, bit-zero, bit-bit_or, bit-bit_and, bit-pow,
}
use native.Mathlib.Nat.{mod-add-mod, mod-lt, mod-eq_of_lt, add-mod-mod, add-mod_right}
use pet_ps.PetHash.Table.{hash, tag_of, step_of, home_chunk, next_pos}

-- A tag is never that of a free slot.
pub tag_of-ne-zero : (crc : ℕ → ℕ) (key : ℕ) → tag_of crc key ≢ 0
unfolding tag_of
tag_of-ne-zero crc key h =
    let x = bit_or (crc (hash key) / 2 ^ 24) 0x80 in
    absurd (
      omega (
        arith,
        bit-bit_and 7 x 0xff,
        bit-bit_or 7 (crc (hash key) / 2 ^ 24) 0x80,
        bit-pow 7 7,
        bit-mask 8 7 (omega arith),
        ap (λ (v : ℕ). bit v 7) h,
        bit-zero 7,
      ))

pub step_of_odd : (crc : ℕ → ℕ) (key : ℕ) → step_of crc key % 2 ≡ 1
unfolding step_of
step_of_odd crc key = omega (arith, bit_or_step (tag_of crc key * 2) 1)

module _ (k : ℕ) where
  pub home_chunk-mod : (key : ℕ) → home_chunk (2 ^ k) key ≡ hash key % 2 ^ k
  unfolding home_chunk
  home_chunk-mod key = bit_and_mask k (hash key)

  pub next_pos-mod : (step pos : ℕ) → next_pos (2 ^ k) step pos ≡ (pos + step) % 2 ^ k
  unfolding next_pos
  next_pos-mod step pos = bit_and_mask k (pos + step)

  pub home_chunk-lt : (key : ℕ) → home_chunk (2 ^ k) key < 2 ^ k
  home_chunk-lt key = omega (arith, home_chunk-mod key, mod-lt (hash key) (pow-pos k))

  pub next_pos-lt : (step pos : ℕ) → next_pos (2 ^ k) step pos < 2 ^ k
  next_pos-lt step pos = omega (arith, next_pos-mod step pos, mod-lt (pos + step) (pow-pos k))

-- The position after `m` steps.
unfoldable pub pos_at : ℕ → ℕ → ℕ → ℕ → ℕ
pos_at n step pos zero = pos
pos_at n step pos (suc m) = next_pos n step (pos_at n step pos m)

pub pos_at-mod :
    (k step pos m : ℕ) → pos < 2 ^ k → pos_at (2 ^ k) step pos m ≡ (pos + m * step) % 2 ^ k
unfolding pos_at
pos_at-mod k step pos zero l = sym (mod-eq_of_lt l) ∙ ap (λ (t : ℕ). t % 2 ^ k) (omega arith)
pos_at-mod k step pos (suc m) l =
    next_pos-mod k step (pos_at (2 ^ k) step pos m)
    ∙ ap (λ (t : ℕ). (t + step) % 2 ^ k) (pos_at-mod k step pos m l)
    ∙ mod-add-mod (pos + m * step) (2 ^ k) step
    ∙ ap (λ (t : ℕ). t % 2 ^ k) (omega arith)

pub pos_at-lt : (k step pos m : ℕ) → pos < 2 ^ k → pos_at (2 ^ k) step pos m < 2 ^ k
pos_at-lt k step pos m l =
    omega (arith, pos_at-mod k step pos m l, mod-lt (pos + m * step) (pow-pos k))

-- The probe sequence of an odd step meets no chunk twice in 2 ^ k rounds.
pub pos_at_injective :
    (k step pos a d : ℕ)
    → step % 2 ≡ 1
    → pos < 2 ^ k
    → 0 < d
    → d < 2 ^ k
    → pos_at (2 ^ k) step pos (a + d) ≢ pos_at (2 ^ k) step pos a
pos_at_injective k step pos a d odd l pos_d small h =
    let n = 2 ^ k in
    let shift : pos + (a + d) * step ≡ pos + a * step + d * step = omega arith in
    let equal : (pos + a * step + d * step) % n ≡ (pos + a * step) % n =
      ap (λ (t : ℕ). t % n) (sym shift)
      ∙ sym (pos_at-mod k step pos (a + d) l)
      ∙ h
      ∙ pos_at-mod k step pos a l in
    let none_left =
      odd_cancel k d step odd (mod_cancel n (pos + a * step) (d * step) (pow-pos k) equal) in
    absurd (omega (arith, none_left, mod-eq_of_lt small))

-- In a table whose number of chunks is a power of two, the positions that `NextPos` gives, from any
-- chunk of the table on and with an odd step, meet every chunk of the table within as many steps as
-- there are chunks.
pub pos_at_onto :
    (k step pos p : ℕ)
    → step % 2 ≡ 1
    → pos < 2 ^ k
    → p < 2 ^ k
    → (m : ℕ) × (m < 2 ^ k) × (pos_at (2 ^ k) step pos m ≡ p)
pos_at_onto k step pos p odd l lp =
    let n = 2 ^ k in
    let t = p + n - pos in
    let (m, lm, e) = odd_solve k step t odd in
    let sum : pos + t ≡ p + n = omega arith in
    (
      m,
      lm,
      pos_at-mod k step pos m l
          ∙ sym (add-mod-mod pos (m * step) n)
          ∙ ap (λ (r : ℕ). (pos + r) % n) e
          ∙ add-mod-mod pos t n
          ∙ ap (λ (r : ℕ). r % n) sum
          ∙ add-mod_right p n
          ∙ mod-eq_of_lt lp,
    )
