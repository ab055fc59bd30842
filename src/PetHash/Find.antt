-- ===== src/PetHash/Find.antt =====
-- What `MatchTag`, `Find` and the slot choice of `Insert` answer, in terms of the tags.
use pet_ps.Common.{
  ℕ, zero, suc, ◌^◌, ◌<◌, ◌≤◌, true, none, some, ltb, ◌==◌, if◌then◌else◌, ◌≡◌, ◌≢◌, arith,
  Bool-cases, eq_cases, sum_below, sum_below-le, sum_below-const, inl, inr,
}
use pet_ps.Common.Pow.{pow-pos, pow_double}
use pet_ps.Common.Bits.{bit_high, bit-mask, bit-add_pow}
use pet_ps.Common.Bitwise.{bit, bit-bit_and, bit_and_mask}
use pet_ps.PetHash.Mask.{first_where-some, first_where-none}
use pet_ps.PetHash.Chunk.{Chunk, max_size, full_mask, loaded, movemask, match_tag, find}

movemask-lt : (bytes : ℕ → ℕ) (tag n : ℕ) → movemask bytes tag n < 2 ^ n
unfolding movemask
movemask-lt bytes tag zero = omega arith
movemask-lt bytes tag (suc n) = ground (arith, movemask-lt bytes tag n, pow_double n, pow-pos n)

bit-movemask :
    (bytes : ℕ → ℕ) (tag n k : ℕ)
    → k < n
    → bit (movemask bytes tag n) k ≡ (if bytes k == tag then 1 else 0)
unfolding movemask
bit-movemask bytes tag zero k l = absurd (omega arith)
bit-movemask bytes tag (suc n) k l =
    let m = movemask bytes tag n in
    let fits = movemask-lt bytes tag n in
    elim (eq_cases k n) [
      | inl same ↦ rw same (ground (arith, bit-add_pow n n m fits, bit_high n n m fits))
      | inr apart ↦ ground (arith, bit-add_pow n k m fits, bit-movemask bytes tag n k (omega arith))
    ]

pub match_tag-lt : (c : Chunk) (tag : ℕ) → match_tag c tag < 2 ^ max_size
unfolding match_tag
match_tag-lt c tag = omega (arith, bit_and_mask 14 (movemask (loaded c) tag 16))

-- The mask has a bit for each of the 14 slots whose tag matches; the two bytes behind the tags do
-- not show in it.
pub bit-match_tag :
    (c : Chunk) (tag k : ℕ)
    → k < max_size
    → bit (match_tag c tag) k ≡ (if c.tags k == tag then 1 else 0)
unfolding match_tag loaded
bit-match_tag c tag k l =
    let m = movemask (loaded c) tag 16 in
    ground (
      arith,
      bit-bit_and k m full_mask,
      bit-movemask (loaded c) tag 16 k (omega arith),
      bit-mask 14 k l,
    )

pub bit-match_tag_slot : (c : Chunk) (tag k : ℕ) → bit (match_tag c tag) k ≡ 1 → k < max_size
bit-match_tag_slot c tag k h = elim (Bool-cases (ltb k max_size)) [
  | inl e ↦ ground arith
  | inr e ↦
      absurd (omega (arith, bit_high 14 k (match_tag c tag) (match_tag-lt c tag) (ground arith)))
]

find_hit :
    (c : Chunk) (key tag : ℕ) {id : ℕ}
    → find c key tag ≡ some id
    → (bit (match_tag c tag) id ≡ 1) × ((key == (c.value id).first) ≡ true)
unfolding find
find_hit c key tag {id} h =
    first_where-some (λ id. key == (c.value id).first) max_size (match_tag c tag) {id = id}
      (omega (arith, match_tag-lt c tag)) h

-- A slot that `Find` returns holds the key under the tag.
pub find-some :
    (c : Chunk) (key tag : ℕ) {id : ℕ}
    → find c key tag ≡ some id
    → (id < max_size) × (c.tags id ≡ tag) × ((c.value id).first ≡ key)
find-some c key tag {id} h =
    let (set_bit, hit) = find_hit c key tag h in
    let slot = bit-match_tag_slot c tag id set_bit in
    (slot, ground (arith, bit-match_tag c tag id slot), ground arith)

-- If `Find` returns no slot, no slot holds the key under the tag.
pub find-none :
    (c : Chunk) (key tag : ℕ)
    → find c key tag ≡ none
    → (id : ℕ) → id < max_size
    → c.tags id ≡ tag
    → (c.value id).first ≢ key
unfolding find
find-none c key tag h id l e same =
    let miss =
      first_where-none (λ id. key == (c.value id).first) max_size 0 (match_tag c tag) (omega arith)
        (match_tag-lt c tag) (λ k j. absurd (omega arith)) h id
        (ground (arith, bit-match_tag c tag id l)) in
    ground arith

unfoldable pub used : Chunk → ℕ → ℕ
used c i = if c.tags i == 0 then 0 else 1

-- `size_` counts the slots with a tag.
pub record IsCounted (c : Chunk) : Type 0 where
  pub counted : c.size ≡ sum_below max_size (used c)

used-le : (c : Chunk) → sum_below max_size (used c) ≤ max_size
unfolding used
used-le c = omega (
  arith,
  sum_below-le max_size (used c) (λ _. 1) (λ j l. ground arith),
  sum_below-const max_size 1,
)

pub size-le : (c : Chunk) → IsCounted c → c.size ≤ max_size
size-le c v = omega (arith, v.counted, used-le c)
