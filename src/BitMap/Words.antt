-- ===== src/BitMap/Words.antt =====
-- Reads of single bits after `set`, `clear` and the constructor.
use pet_ps.Common.{ℕ, ◌-◌, ◌/◌, ◌%◌, ◌^◌, ◌<◌, true, false, ◌==◌, if◌then◌else◌, ◌≡◌, arith}
use pet_ps.Common.Bitwise.{bit, bit-le, bit-shift, bit-bit_or, bit-bit_and, bit-pow, bit-complement}
use pet_ps.Common.Bitwise.{bit_or-lt, bit_and-le}
use pet_ps.Common.Pow.{pow-lt_pow}
use pet_ps.BitMap.{BitMap, word_max, get, set, clear}

-- Every word that the map covers is a 64-bit number, and the words are covered whole.
pub record IsValid (m : BitMap) : Type 0 where
  pub whole : m.n % 64 ≡ 0
  pub words : (i : ℕ) → i < m.n / 64 → m.bits i < 2 ^ 64

pub get-eq-bit : (m : BitMap) (pos : ℕ) → get m pos ≡ (bit (m.bits (pos / 64)) (pos % 64) == 1)
unfolding get
get-eq-bit m pos = rw (bit-shift (pos % 64) (m.bits (pos / 64)))

-- Setting a bit makes its position read true and leaves every other position as it was.
pub get-set : (m : BitMap) (pos q : ℕ) → get (set m pos) q ≡ (if pos == q then true else get m q)
unfolding set
get-set m pos q =
    let v = m.bits (pos / 64) in
    ground (
      arith,
      get-eq-bit (set m pos) q,
      get-eq-bit m q,
      bit-bit_or (q % 64) v (2 ^ (pos % 64)),
      bit-pow (pos % 64) (q % 64),
      bit-le v (q % 64),
    )

-- Clearing a bit makes its position read false and leaves every other position as it was, in a map
-- whose word there is a 64-bit number.
pub get-clear :
    (m : BitMap) (pos q : ℕ)
    → m.bits (pos / 64) < 2 ^ 64
    → get (clear m pos) q ≡ (if pos == q then false else get m q)
unfolding clear
get-clear m pos q l =
    let v = m.bits (pos / 64) in
    let mask = 2 ^ (pos % 64) in
    ground (
      arith,
      get-eq-bit (clear m pos) q,
      get-eq-bit m q,
      bit-bit_and (q % 64) v (word_max - mask),
      bit-complement 64 (q % 64) mask (pow-lt_pow (pos % 64) 64 (omega arith)) (omega arith),
      bit-pow (pos % 64) (q % 64),
      bit-le v (q % 64),
    )

-- Every operation that writes keeps the map well formed.
pub set-IsValid : (m : BitMap) (pos : ℕ) → IsValid m → IsValid (set m pos)
unfolding set
set-IsValid m pos v = record {
  whole = v.whole;
  words = λ i l. ground (
    arith,
    v.words i l,
    bit_or-lt 64 (m.bits (pos / 64)) (2 ^ (pos % 64)),
    pow-lt_pow (pos % 64) 64,
  );
}

pub clear-IsValid : (m : BitMap) (pos : ℕ) → IsValid m → IsValid (clear m pos)
unfolding clear
clear-IsValid m pos v =
    let w = m.bits (pos / 64) in
    record {
      whole = v.whole;
      words = λ i l. ground (arith, v.words i l, bit_and-le w w (word_max - 2 ^ (pos % 64)));
    }
