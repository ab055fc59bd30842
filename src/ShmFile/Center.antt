-- ===== src/ShmFile/Center.antt =====
-- When a register center is well formed, and what `append_register` does to it.
use pet_ps.Common.{
  ℕ, ◌+◌, ◌-◌, ◌%◌, ◌^◌, ◌<◌, ◌≤◌, true, false, none, List, take, ltb, leb, ◌==◌, update, ◌≡◌, refl,
  arith, inl, inr, eq→==, ne→==, eq_cases, subst,
}
use pet_ps.Common.Bytes.{Apart}
use pet_ps.Common.Outcome.{done, Returns}
use pet_ps.ShmFile.{
  RegisterCenter, MmMeta, data_addr_start, align, dax_mm_size, mm_meta_max, item_magic, register,
  find_if_exists, append_register, append_item, new_size, memset,
}

-- The table's items lie one behind the other below the cursor.
pub record IsCenter (c : RegisterCenter) : Type 0 where
  pub small : c.shmfile_mmap_addr_start < 2 ^ 47
  pub few : c.meta_block.mm_meta_nr ≤ mm_meta_max
  pub low : data_addr_start c ≤ c.shmfile_mmap_addr
  pub high : c.shmfile_mmap_addr < data_addr_start c + dax_mm_size + align
  pub magics : (i : ℕ) → (c.meta_block.mm_meta i).magic ≡ item_magic
  pub below :
      (i : ℕ)
      → i < c.meta_block.mm_meta_nr
      → data_addr_start c + (c.meta_block.mm_meta i).offset + (c.meta_block.mm_meta i).size
        ≤ c.shmfile_mmap_addr
  pub ordered :
      (i j : ℕ)
      → i < j
      → j < c.meta_block.mm_meta_nr
      → (c.meta_block.mm_meta i).offset + (c.meta_block.mm_meta i).size
        ≤ (c.meta_block.mm_meta j).offset

-- The center and the address after `Register` of a new name.
pub record Registered (c : RegisterCenter) (name : List ℕ) (size : ℕ) (r : RegisterCenter × ℕ)
    : Type 0 where
  pub sound : IsCenter r.0
  pub inside : (data_addr_start c ≤ r.1) × (r.1 + size < data_addr_start c + dax_mm_size)
  pub fresh :
      (i : ℕ)
      → i < c.meta_block.mm_meta_nr
      → data_addr_start c + (c.meta_block.mm_meta i).offset + (c.meta_block.mm_meta i).size ≤ r.1
  pub kept :
      (i : ℕ) → i < c.meta_block.mm_meta_nr → r.0.meta_block.mm_meta i ≡ c.meta_block.mm_meta i
  pub zeroed : (a : ℕ) → r.1 ≤ a → a < r.1 + size → r.0.memory a ≡ 0
  pub others : (a : ℕ) → Apart a 1 r.1 size → r.0.memory a ≡ c.memory a

abbrev pub new_item : RegisterCenter → List ℕ → ℕ → MmMeta
new_item c name size = record {
  file_name = take 50 name;
  offset = c.shmfile_mmap_addr - data_addr_start c;
  size = size;
  magic = (c.meta_block.mm_meta c.meta_block.mm_meta_nr).magic;
}

abbrev pub registered : RegisterCenter → List ℕ → ℕ → RegisterCenter
registered c name size = record {
  meta_block = record {
    magic = c.meta_block.magic;
    mm_meta_nr = c.meta_block.mm_meta_nr + 1;
    mm_meta = update c.meta_block.mm_meta c.meta_block.mm_meta_nr (new_item c name size);
  };
  memory = memset c.memory c.shmfile_mmap_addr size;
  shmfile_mmap_addr_start = c.shmfile_mmap_addr_start;
  shmfile_mmap_addr = (c.shmfile_mmap_addr + new_size size) % 2 ^ 64;
  reinitialized = c.reinitialized;
}

pub append_register-done :
    (c : RegisterCenter) (name : List ℕ) (size : ℕ)
    → IsCenter c
    → 0 < size
    → c.shmfile_mmap_addr + size < data_addr_start c + dax_mm_size
    → c.meta_block.mm_meta_nr < mm_meta_max
    → append_register c name size ≡ done (registered c name size, c.shmfile_mmap_addr)
unfolding append_register append_item
append_register-done c name size v positive room few =
    let some_size : (size == 0) ≡ false = ground (arith, positive) in
    let low : ltb c.shmfile_mmap_addr (data_addr_start c) ≡ false = ground (arith, v.low) in
    let high : leb (data_addr_start c + dax_mm_size) ((c.shmfile_mmap_addr + size) % 2 ^ 64)
        ≡ false =
      ground (arith, room, v.small) in
    let count : leb (c.meta_block.mm_meta_nr + 1) mm_meta_max ≡ true = ground (arith, few) in
    rw (some_size, low, high, count) refl

pub register-append :
    (c : RegisterCenter) (name : List ℕ) (size : ℕ)
    → find_if_exists c name ≡ done none
    → register c name size ≡ append_register c name size
unfolding register
register-append c name size absent = rw absent refl

pub new_size_bounds :
    (size : ℕ) → size < 2 ^ 63 → (size ≤ new_size size) × (new_size size < size + align)
new_size_bounds size h = (omega (arith, h), omega (arith, h))

-- What holds of a table's items and of a new one behind them.
update-every :
    (P : ℕ → MmMeta → Type 0) (f : ℕ → MmMeta) (n : ℕ) (x : MmMeta)
    → ((i : ℕ) → i < n → P i (f i))
    → P n x
    → (i : ℕ) → i < n + 1
    → P i (update f n x i)
update-every P f n x old new i l = elim (eq_cases n i) [
  | inl e ↦ rw (eq→== n i e) (subst (λ k. P k x) e new)
  | inr e ↦ rw (ne→== n i e) (old i (omega (arith, l, e)))
]

pub registered-Registered :
    (c : RegisterCenter) (name : List ℕ) (size : ℕ)
    → IsCenter c
    → 0 < size
    → c.shmfile_mmap_addr + size < data_addr_start c + dax_mm_size
    → c.meta_block.mm_meta_nr < mm_meta_max
    → Registered c name size (registered c name size, c.shmfile_mmap_addr)
registered-Registered c name size v positive room few =
    let bounds = new_size_bounds size (omega (arith, room, v.small)) in
    let nr = c.meta_block.mm_meta_nr in
    let cursor : (c.shmfile_mmap_addr + new_size size) % 2 ^ 64
        ≡ c.shmfile_mmap_addr + new_size size =
      omega (arith, room, v.small, bounds.1) in
    let items = update c.meta_block.mm_meta nr (new_item c name size) in
    let same : (i : ℕ) → i < nr → items i ≡ c.meta_block.mm_meta i =
      λ i l. rw (ne→== nr i (omega (arith, l))) refl in
    let last : items nr ≡ new_item c name size = rw (eq→== nr nr refl) refl in
    record {
      sound = record {
        small = v.small;
        few = omega (arith, few);
        low = omega (arith, cursor, v.low);
        high = omega (arith, cursor, room, bounds.1);
        magics = λ i. elim (eq_cases nr i) [
          | inl e ↦ rw (eq→== nr i e) (v.magics nr)
          | inr e ↦ rw (ne→== nr i e) (v.magics i)
        ];
        below = λ i l.
            let under =
              update-every
                (λ _ x. data_addr_start c + x.offset + x.size ≤ c.shmfile_mmap_addr + new_size size)
                c.meta_block.mm_meta nr (new_item c name size) (λ k m. omega (arith, v.below k m))
                (omega (arith, v.low, bounds.1)) i l in
            omega (arith, under, cursor);
        ordered = λ i j l h. elim (eq_cases nr j) [
          | inl e ↦
              let before : i < nr = omega (arith, l, e) in
              rw (ne→== nr i (omega (arith, before)), eq→== nr j e)
                (omega (arith, v.below i before))
          | inr e ↦
              rw (ne→== nr i (omega (arith, l, h, e)), ne→== nr j e)
                (v.ordered i j l (omega (arith, h, e)))
        ];
      };
      inside = (v.low, room);
      fresh = v.below;
      kept = same;
      zeroed = λ a l h. ground (arith, l, h);
      others = λ a h. ground (arith, h);
    }

pub append_register-Registered :
    (c : RegisterCenter) (name : List ℕ) (size : ℕ)
    → IsCenter c
    → 0 < size
    → c.shmfile_mmap_addr + size < data_addr_start c + dax_mm_size
    → c.meta_block.mm_meta_nr < mm_meta_max
    → Returns (append_register c name size) (Registered c name size)
append_register-Registered c name size v positive room few = (
  _,
  append_register-done c name size v positive room few,
  registered-Registered c name size v positive room few,
)
