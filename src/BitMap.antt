-- ===== src/BitMap.antt =====
-- src/base/bitmap.h: a bit map over an array of 64-bit words.
-- The array `bits` is a function of the word's index, a word a number below 2 ^ 64, `~v` is
-- `word_max - v`, and a position of -1 is `none`.
pub mod Words
pub mod Positions
pub mod Ones
use pet_ps.Common.{
  ℕ, zero, suc, ◌+◌, ◌-◌, ◌*◌, ◌/◌, ◌%◌, ◌^◌, bit_and, bit_or, Bool, true, false, Option, none,
  some, ltb, ◌==◌, if◌then◌else◌, update,
}
use pet_ps.Common.Bits.{ctz}

pub record BitMap : Type 0 where
  pub n : ℕ
  pub bits : ℕ → ℕ

abbrev pub word_max : ℕ
word_max = 2 ^ 64 - 1

-- `sizeof(BitMap)` is that of `n`, padded to the alignment of the words.
abbrev pub size_of_header : ℕ
size_of_header = 8

-- `CHECK_EQ(n % 64, 0)` fails in `none`.
unfoldable pub memory_size : ℕ → Option ℕ
memory_size n = if n % 64 == 0 then some (size_of_header + n / 64 * 8) else none

-- `memset(bits, 0, n / 8)`
unfoldable pub clear_all : BitMap → BitMap
clear_all m = record m { bits = λ i. if ltb i (m.n / 8 / 8) then 0 else m.bits i }

-- The constructor, over memory that holds `memory`.
unfoldable pub new : (ℕ → ℕ) → ℕ → Option BitMap
unfolding clear_all
new memory n = if n % 64 == 0 then some (clear_all (record { n = n; bits = memory })) else none

unfoldable pub get : BitMap → ℕ → Bool
get m pos = bit_and (m.bits (pos / 64) / 2 ^ (pos % 64)) 1 == 1

unfoldable pub set : BitMap → ℕ → BitMap
set m pos =
    let v = m.bits (pos / 64) in
    record m { bits = update m.bits (pos / 64) (bit_or v (2 ^ (pos % 64))) }

unfoldable pub clear : BitMap → ℕ → BitMap
clear m pos =
    let v = m.bits (pos / 64) in
    record m { bits = update m.bits (pos / 64) (bit_and v (word_max - 2 ^ (pos % 64))) }

-- The count after `i` rounds of the loop.
unfoldable pub ones_below : BitMap → ℕ → ℕ
ones_below m zero = 0
ones_below m (suc i) = (if get m i then 1 else 0) + ones_below m i

unfoldable pub number_of_ones : BitMap → ℕ
unfolding ones_below
number_of_ones m = ones_below m m.n

-- The loop of `first_zero_pos`, with the rounds left and `i`.
unfoldable pub first_zero_from : BitMap → ℕ → ℕ → Option ℕ
first_zero_from m zero i = none
first_zero_from m (suc left) i =
    let b = word_max - m.bits i in
    let rest = first_zero_from m left (i + 1) in if b == 0 then rest else some (i * 64 + ctz 64 b)

unfoldable pub first_zero_pos : BitMap → Option ℕ
unfolding first_zero_from
first_zero_pos m = first_zero_from m (m.n / 64) 0

-- The loop of `set_zero_pos`; it returns the map and the position.
unfoldable pub set_zero_from : BitMap → ℕ → ℕ → BitMap × Option ℕ
set_zero_from m zero i = (m, none)
set_zero_from m (suc left) i =
    let v = m.bits i in
    let b = word_max - v in
    let rest = set_zero_from m left (i + 1) in
    let pos = ctz 64 b in
    if b == 0
    then rest
    else (record m { bits = update m.bits i (bit_or v (2 ^ pos)) }, some (i * 64 + pos))

unfoldable pub set_zero_pos : BitMap → BitMap × Option ℕ
unfolding set_zero_from
set_zero_pos m = set_zero_from m (m.n / 64) 0
