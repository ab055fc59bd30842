-- ===== src/ShmFile/Regions.antt =====
-- The regions that `Register` hands out.
use pet_ps.Common.{
  ℕ, zero, suc, ◌+◌, ◌-◌, ◌^◌, ◌<◌, ◌≤◌, max, true, false, none, some, List, [], ◌∷◌, length, take,
  ◌==◌, if◌then◌else◌, ◌≡◌, refl, ap, ◌∙◌, arith, Bool-cases, inl, inr, eq→==, ne→==,
}
use pet_ps.Common.Bytes.{Memory}
use pet_ps.Common.Outcome.{done, fatal, Returns}
use pet_ps.ShmFile.{
  construct, RegisterCenter, MetaBlock, data_addr_start, dax_mm_size, mm_meta_max, item_magic,
  size_of_meta_block, register, register_found, find_if_exists, find_from, valid, valid_from,
  re_initialize, new_meta_block, same_name,
}
use pet_ps.ShmFile.Center.{
  IsCenter, Registered, new_item, registered, append_register-done, register-append,
  new_size_bounds, append_register-Registered,
}

-- `Register` of a name that the table does not have, of a size that is not 0, with room left: it
-- returns, the center is well formed again, the region lies between the table and the end that the code
-- checks, behind every region that the table has, its bytes are 0, and the table's items and all other
-- bytes are as they were.
pub register-Registered :
    (c : RegisterCenter) (name : List ℕ) (size : ℕ)
    → IsCenter c
    → find_if_exists c name ≡ done none
    → 0 < size
    → c.shmfile_mmap_addr + size < data_addr_start c + dax_mm_size
    → c.meta_block.mm_meta_nr < mm_meta_max
    → Returns (register c name size) (Registered c name size)
register-Registered c name size v absent positive room few =
    let (r, run, made) = append_register-Registered c name size v positive room few in
    (r, register-append c name size absent ∙ run, made)

valid_from-magics :
    (b : MetaBlock) (i left : ℕ)
    → ((k : ℕ) → (b.mm_meta k).magic ≡ item_magic)
    → valid_from b i left ≡ true
unfolding valid_from
valid_from-magics b i zero h = refl
valid_from-magics b i (suc left) h = rw (eq→== _ _ (h i), valid_from-magics b (i + 1) left h) refl

-- The center after `ReInitialize`.
abbrev pub emptied : RegisterCenter → RegisterCenter
emptied c = record c { meta_block = new_meta_block; reinitialized = true }

re_initialize-emptied :
    (c : RegisterCenter) → c.reinitialized ≡ false → re_initialize c ≡ done (emptied c)
unfolding re_initialize valid new_meta_block
re_initialize-emptied c first =
    rw (first, valid_from-magics new_meta_block 0 mm_meta_max (λ _. refl)) refl

same_name_refl : (xs : List ℕ) → same_name xs xs ≡ true
unfolding same_name
same_name_refl [] = refl
same_name_refl (x ∷ xs) = rw (eq→== x x refl, same_name_refl xs) refl

take-all : (n : ℕ) (xs : List ℕ) → length xs ≤ n → take n xs ≡ xs
take-all zero [] h = refl
take-all (suc n) [] h = refl
take-all zero (x ∷ xs) h = absurd (omega (arith, h))
take-all (suc n) (x ∷ xs) h = ap (λ ys. x ∷ ys) (take-all n xs (omega (arith, h)))

-- The search of a table that has a new item behind those in which the name is not found.
find_from-new :
    (b b' : MetaBlock) (name : List ℕ) (i left n : ℕ)
    → i + left ≡ n
    → ((k : ℕ) → k < n → b'.mm_meta k ≡ b.mm_meta k)
    → same_name (take 64 (b'.mm_meta n).file_name) (take 64 name) ≡ true
    → (b'.mm_meta n).magic ≡ item_magic
    → find_from b name i left ≡ done none
    → find_from b' name i (suc left) ≡ done (some n)
unfolding find_from
find_from-new b b' name i zero n e same found magic absent =
    let here : i ≡ n = omega (arith, e) in
    let found' : same_name (take 64 (b'.mm_meta i).file_name) (take 64 name) ≡ true =
      rw (here) found in
    let magic' : ((b'.mm_meta i).magic == item_magic) ≡ true =
      eq→== _ _ (ap (λ k. (b'.mm_meta k).magic) here ∙ magic) in
    rw (found', magic') (ap (λ k. done (some k)) here)
find_from-new b b' name i (suc left) n e same found magic absent =
    let here = same i (omega (arith, e)) in
    elim (Bool-cases (same_name (take 64 (b.mm_meta i).file_name) (take 64 name))) [
      | inl same ↦
          let stop : (if (b.mm_meta i).magic == item_magic then done (some i) else fatal)
              ≡ done none =
            rw same at absent in
          absurd (ground (arith, stop))
      | inr other ↦
          let rest : find_from b name (i + 1) left ≡ done none = rw other at absent in
          rw (here, other)
            (find_from-new b b' name (i + 1) left n (omega (arith, e)) same found magic rest)
    ]

-- `Register` with the same name, of at most 50 characters, and the same size again: it returns the same
-- address, and changes nothing.
pub register-again :
    (c : RegisterCenter) (name : List ℕ) (size : ℕ)
    → IsCenter c
    → find_if_exists c name ≡ done none
    → 0 < size
    → c.shmfile_mmap_addr + size < data_addr_start c + dax_mm_size
    → c.meta_block.mm_meta_nr < mm_meta_max
    → length name ≤ 50
    → Returns (register c name size) (λ r. register r.0 name size ≡ done (r.0, r.1))
unfolding register find_if_exists register_found
register-again c name size v absent positive room few short =
    let nr = c.meta_block.mm_meta_nr in
    let shape : nr + 1 ≡ suc nr = omega arith in
    let c' = registered c name size in
    let items = c'.meta_block.mm_meta in
    let last : items nr ≡ new_item c name size = rw (eq→== nr nr refl) refl in
    let bounds = new_size_bounds size (omega (arith, room, v.small)) in
    let whole = take-all 50 name short in
    let start : data_addr_start c + (c.shmfile_mmap_addr - data_addr_start c)
        ≡ c.shmfile_mmap_addr =
      omega (arith, v.low) in
    let cursor : max c'.shmfile_mmap_addr (c.shmfile_mmap_addr + size) ≡ c'.shmfile_mmap_addr =
      omega (arith, room, v.small, bounds.1, bounds.0) in
    let found : find_from c'.meta_block name 0 (suc nr) ≡ done (some nr) =
      find_from-new c.meta_block c'.meta_block name 0 nr nr (omega arith)
        (λ k l. rw (ne→== nr k (omega (arith, l))) refl)
        (rw (last, whole) (same_name_refl (take 64 name))) (rw (eq→== nr nr refl) (v.magics nr))
        absent in
    let found' : find_from c'.meta_block name 0 (nr + 1) ≡ done (some nr) =
      ap (find_from c'.meta_block name 0) shape ∙ found in
    (
      _,
      register-append c name size absent ∙ append_register-done c name size v positive room few,
      rw (found', last, eq→== size size refl, start, cursor) refl,
    )

-- The center at an address before any file is registered.
abbrev pub fresh : ℕ → Memory → RegisterCenter
fresh addr memory = record {
  meta_block = new_meta_block;
  memory = memory;
  shmfile_mmap_addr_start = addr;
  shmfile_mmap_addr = addr + size_of_meta_block;
  reinitialized = true;
}

pub fresh-IsCenter : (addr : ℕ) (memory : Memory) → addr < 2 ^ 47 → IsCenter (fresh addr memory)
unfolding new_meta_block
fresh-IsCenter addr memory user = record {
  small = user;
  few = omega arith;
  low = omega arith;
  high = omega arith;
  magics = λ i. refl;
  below = λ i l. absurd (omega (arith, l));
  ordered = λ i j l h. absurd (omega (arith, h));
}

-- The constructor over DRAM makes that center.
pub construct-fresh :
    (addr : ℕ) (meta : MetaBlock) (memory : Memory)
    → construct true addr meta memory ≡ done (fresh addr memory)
unfolding construct
construct-fresh addr meta memory =
    let c : RegisterCenter = record {
      meta_block = meta;
      memory = memory;
      shmfile_mmap_addr_start = addr;
      shmfile_mmap_addr = addr + size_of_meta_block;
      reinitialized = false;
    } in
    re_initialize-emptied c refl
