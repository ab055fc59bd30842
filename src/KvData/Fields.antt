-- ===== src/KvData/Fields.antt =====
-- The two fields do not disturb one another, and an aligned offset is read back.
use pet_ps.Common.{
  ℕ, zero, suc, ◌+◌, ◌-◌, ◌*◌, ◌/◌, ◌%◌, ◌^◌, ◌<◌, ◌≤◌, bit_and, Option, none, some, ltb, ◌≡◌, ap,
  ◌∙◌, arith, Bool-cases, inl, inr, ◌≢◌,
}
use pet_ps.Common.Pow.{pow-pos, pow_add}
use pet_ps.Common.Bitwise.{bit_and_mask, bit_or_fields}
use native.Mathlib.Nat.{
  mod-eq_of_lt, mod-lt, mul-lt-mul_of_pos_right, add-mul-div_right, div-eq_of_lt,
  add-mul-mod_self_right, mod-mod,
}
use pet_ps.KvData.{
  Config, config, offset_bit_from, choose_offset_bit, shm_malloc_offset, stored_offset,
  set_shm_malloc_offset, expire_timet,
}

-- The layout that the constructor of `Config` gives for `offset_bit`.
pub record IsLayout (offset_bit : ℕ) (c : Config) : Type 0 where
  pub expire_width : c.expire_bit + offset_bit ≡ 64
  pub mask : c.expire_mark ≡ 2 ^ c.expire_bit - 1
  pub sentinel : c.no_malloc_offset ≡ 2 ^ offset_bit - 1

pub config-IsLayout :
    (offset_bit : ℕ) (c : Config)
    → offset_bit ≤ 64
    → config offset_bit ≡ some c
    → IsLayout offset_bit c
unfolding config
config-IsLayout offset_bit c le h = ground arith

module _ {b : ℕ} {c : Config} (layout : IsLayout b c) (d : ℕ) where
  low : bit_and d c.expire_mark ≡ d % 2 ^ c.expire_bit
  low = rw (layout.mask) (bit_and_mask c.expire_bit d)

  low-lt : d % 2 ^ c.expire_bit < 2 ^ c.expire_bit
  low-lt = mod-lt d (pow-pos c.expire_bit)

  packed :
      (offset : Option ℕ)
      → stored_offset c offset < 2 ^ b
      → set_shm_malloc_offset c d offset
        ≡ d % 2 ^ c.expire_bit + stored_offset c offset * 2 ^ c.expire_bit
  unfolding set_shm_malloc_offset
  packed offset fits =
      let s = stored_offset c offset in
      let whole : b + c.expire_bit ≡ 64 = omega (arith, layout.expire_width) in
      let room : s * 2 ^ c.expire_bit < 2 ^ 64 = omega (
        arith,
        mul-lt-mul_of_pos_right fits (pow-pos c.expire_bit),
        pow_add b c.expire_bit,
        ap (λ (t : ℕ). 2 ^ t) whole,
      ) in
      rw (mod-eq_of_lt room, low) (bit_or_fields c.expire_bit (d % 2 ^ c.expire_bit) s low-lt)

  upper : (s : ℕ) → (d % 2 ^ c.expire_bit + s * 2 ^ c.expire_bit) / 2 ^ c.expire_bit ≡ s
  upper s =
      rw (add-mul-div_right (d % 2 ^ c.expire_bit) s (pow-pos c.expire_bit))
        (omega (arith, div-eq_of_lt low-lt))

  -- An offset that is a multiple of 8 and whose eighth lies below the sentinel is read back as it
  -- was stored.
  pub shm_malloc_offset-set_some :
      (offset : ℕ)
      → offset / 8 < 2 ^ b - 1
      → offset < 2 ^ 64
      → shm_malloc_offset c (set_shm_malloc_offset c d (some offset)) ≡ some (offset - offset % 8)
  unfolding shm_malloc_offset stored_offset
  shm_malloc_offset-set_some offset fits small =
      rw (packed (some offset) (omega arith), upper (offset / 8)) (ground (arith, layout.sentinel))

  pub shm_malloc_offset-set_none : shm_malloc_offset c (set_shm_malloc_offset c d none) ≡ none
  unfolding shm_malloc_offset stored_offset
  shm_malloc_offset-set_none =
      rw (packed none (omega (arith, layout.sentinel, pow-pos b)), upper c.no_malloc_offset)
        (ground arith)

  -- Storing an offset leaves the expiry time alone.
  pub expire_timet-set :
      (offset : Option ℕ)
      → stored_offset c offset < 2 ^ b
      → expire_timet c (set_shm_malloc_offset c d offset) ≡ expire_timet c d
  unfolding expire_timet stored_offset
  expire_timet-set offset fits =
      let m = 2 ^ c.expire_bit in
      let s = stored_offset c offset in
      let kept : bit_and (d % m + s * m) c.expire_mark ≡ bit_and d c.expire_mark =
        rw (layout.mask, bit_and_mask c.expire_bit (d % m + s * m), bit_and_mask c.expire_bit d)
          (add-mul-mod_self_right (d % m) s m ∙ mod-mod d m) in
      rw (packed offset fits, kept)

-- The loop finds a width for a shard that is smaller than its last power of two.
offset_bit_from_lem :
    (left i mem : ℕ)
    → 36 ≤ i
    → i + left ≤ 63
    → mem < 2 ^ (i + left - 1)
    → 0 < left
    → (mem < 2 ^ (offset_bit_from left i mem + 3))
      × (33 ≤ offset_bit_from left i mem)
      × (offset_bit_from left i mem ≤ 59)
unfolding offset_bit_from
offset_bit_from_lem zero i mem a b l pos = absurd (omega arith)
offset_bit_from_lem (suc left) i mem a b l pos = elim (Bool-cases (ltb mem (2 ^ i))) [
  | inl e ↦
      let back : i - 3 + 3 ≡ i = omega arith in
      rw (e, back) (ground arith, omega arith, omega arith)
  | inr e ↦
      let last : left ≡ 0 → 2 ^ (i + suc left - 1) ≡ 2 ^ i =
        λ h. ap (λ (t : ℕ). 2 ^ t) (omega arith) in
      let more : left ≢ 0 = λ h. absurd (ground (arith, last h)) in
      let same : i + suc left - 1 ≡ i + 1 + left - 1 = omega arith in
      rw e (
        offset_bit_from_lem left (i + 1) mem (omega arith) (omega arith) (rw (← same) l)
          (omega arith))
]

-- The chosen width covers the shard.
pub choose_offset_bit_lem :
    (mem : ℕ)
    → mem < 2 ^ 62
    → (mem < 2 ^ (choose_offset_bit mem + 3))
      × (33 ≤ choose_offset_bit mem)
      × (choose_offset_bit mem ≤ 59)
unfolding choose_offset_bit
choose_offset_bit_lem mem l = elim (Bool-cases (ltb mem (2 ^ 35))) [
  | inl e ↦ rw e (ground arith, omega arith, omega arith)
  | inr e ↦ rw e (offset_bit_from_lem 27 36 mem (omega arith) (omega arith) l (omega arith))
]

-- Under the layout that `PetMultiKV` chooses for a shard of fewer than 2 ^ 62 bytes, every offset
-- of eight bytes that lie inside the shard is read back exactly when it is a multiple of 8, and
-- otherwise rounded down to one; storing it leaves the expiry time as it was.
pub chosen_layout-roundtrip :
    (mem offset d : ℕ) (c : Config)
    → mem < 2 ^ 62
    → config (choose_offset_bit mem) ≡ some c
    → offset + 8 ≤ mem
    → let d' = set_shm_malloc_offset c d (some offset) in
      (shm_malloc_offset c d' ≡ some (offset - offset % 8)) × (expire_timet c d' ≡ expire_timet c d)
unfolding stored_offset
chosen_layout-roundtrip mem offset d c l e inside =
    let b = choose_offset_bit mem in
    let (covers, low_bound, high) = choose_offset_bit_lem mem l in
    let layout = config-IsLayout b c (omega arith) e in
    let fits : offset / 8 < 2 ^ b - 1 = omega (arith, pow_add b 3) in
    (
      shm_malloc_offset-set_some layout d offset fits (omega arith),
      expire_timet-set layout d (some offset) (omega arith),
    )
