-- ===== src/Common/Bytes.antt =====
-- Memory as an array of bytes: `memcpy`, and an `int` in little-endian order.
use Prim.Native.Nat.{ℕ, zero, suc, ◌+◌, ◌*◌, ◌/◌, ◌%◌, ◌^◌, ◌<◌, ◌≤◌}
use mathlib.Core.Path.{ap, ◌≡◌, refl, ◌∙◌}
use mathlib.Core.Logic.{◌⊎◌, inl}
use mathlib.Core.List.{List, [], ◌∷◌}
use native.Mathlib.Omega.{arith}
use pet_ps.Common.Tests.{ne→==, eq→==}
use pet_ps.Common.Lists.{length}
use pet_ps.Common.Arrays.{update}

abbrev pub Memory : Type 0
Memory = ℕ → ℕ

unfoldable pub read_bytes : Memory → ℕ → ℕ → List ℕ
read_bytes memory start zero = []
read_bytes memory start (suc n) = memory start ∷ read_bytes memory (start + 1) n

unfoldable pub write_bytes : Memory → ℕ → List ℕ → Memory
write_bytes memory start [] = memory
write_bytes memory start (b ∷ bs) = write_bytes (update memory start b) (start + 1) bs

unfoldable pub read_int : Memory → ℕ → ℕ
read_int memory start =
    memory start
    + (memory (start + 1) * 2 ^ 8 + (memory (start + 2) * 2 ^ 16 + memory (start + 3) * 2 ^ 24))

abbrev pub int_bytes : ℕ → List ℕ
int_bytes v = v % 2 ^ 8 ∷ v / 2 ^ 8 % 2 ^ 8 ∷ v / 2 ^ 16 % 2 ^ 8 ∷ v / 2 ^ 24 % 2 ^ 8 ∷ []

unfoldable pub write_int : Memory → ℕ → ℕ → Memory
unfolding write_bytes
write_int memory start v = write_bytes memory start (int_bytes v)

-- `n` bytes at `a` lie apart from `m` bytes at `b`.
abbrev pub Apart : ℕ → ℕ → ℕ → ℕ → Type 0
Apart a n b m = (a + n ≤ b) ⊎ (b + m ≤ a)

pub write_bytes-outside :
    (memory : Memory) (start : ℕ) (bs : List ℕ) (j : ℕ)
    → Apart j 1 start (length bs)
    → write_bytes memory start bs j ≡ memory j
unfolding write_bytes
write_bytes-outside memory start [] j h = refl
write_bytes-outside memory start (b ∷ bs) j h =
    write_bytes-outside (update memory start b) (start + 1) bs j (ground (arith, h))
    ∙ rw (ne→== start j (ground (arith, h))) refl

pub read_bytes-write_self :
    (memory : Memory) (start : ℕ) (bs : List ℕ)
    → read_bytes (write_bytes memory start bs) start (length bs) ≡ bs
unfolding read_bytes write_bytes
read_bytes-write_self memory start [] = refl
read_bytes-write_self memory start (b ∷ bs) =
    let rest = read_bytes-write_self (update memory start b) (start + 1) bs in
    let outside =
      write_bytes-outside (update memory start b) (start + 1) bs start (inl (omega arith)) in
    rw (rest, outside, eq→== start start refl) refl

pub read_bytes-write-Apart :
    (memory : Memory) (start : ℕ) (bs : List ℕ) (a n : ℕ)
    → Apart a n start (length bs)
    → read_bytes (write_bytes memory start bs) a n ≡ read_bytes memory a n
unfolding read_bytes
read_bytes-write-Apart memory start bs a zero h = refl
read_bytes-write-Apart memory start bs a (suc n) h =
    rw
      (
        write_bytes-outside memory start bs a (ground (arith, h)),
        read_bytes-write-Apart memory start bs (a + 1) n (ground (arith, h)),
      )
      refl

pub read_int-write_self :
    (memory : Memory) (start v : ℕ) → v < 2 ^ 32 → read_int (write_int memory start v) start ≡ v
unfolding read_int write_int
read_int-write_self memory start v l = ground (arith, l)

pub read_int-write-Apart :
    (memory : Memory) (start : ℕ) (bs : List ℕ) (a : ℕ)
    → Apart a 4 start (length bs)
    → read_int (write_bytes memory start bs) a ≡ read_int memory a
unfolding read_int
read_int-write-Apart memory start bs a h =
    rw
      (
        write_bytes-outside memory start bs a (ground (arith, h)),
        write_bytes-outside memory start bs (a + 1) (ground (arith, h)),
        write_bytes-outside memory start bs (a + 2) (ground (arith, h)),
        write_bytes-outside memory start bs (a + 3) (ground (arith, h)),
      )
      refl

pub length-read_bytes : (memory : Memory) (start n : ℕ) → length (read_bytes memory start n) ≡ n
unfolding read_bytes
length-read_bytes memory start zero = refl
length-read_bytes memory start (suc n) = ap suc (length-read_bytes memory (start + 1) n)
