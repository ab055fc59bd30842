-- ===== src/ShmFile.antt =====
-- src/memory/shm_file.h: `PMMmapRegisterCenter`, which cuts one mapping of the persistent memory into the
-- files of the process and keeps a table of them at the mapping's start.
-- An address is a number, and the memory is an array of bytes. A name is its characters, none of them 0.
pub mod Center
pub mod Regions
pub mod Files
use pet_ps.Common.{
  ℕ, zero, suc, ◌+◌, ◌-◌, ◌*◌, ◌/◌, ◌%◌, ◌^◌, max, Bool, true, false, Option, none, some, List, [],
  ◌∷◌, ltb, leb, ◌==◌, if◌then◌else◌, update, take, ◌&&◌, ◌||◌, not,
}
use pet_ps.Common.Bytes.{Memory}
use pet_ps.Common.Outcome.{Outcome, done, fatal, ◌>>=◌}

-- `strncmp(a, b, 64) == 0` is the equality of what `take 64` leaves.
unfoldable pub same_name : List ℕ → List ℕ → Bool
same_name [] [] = true
same_name [] (_ ∷ _) = false
same_name (_ ∷ _) [] = false
same_name (x ∷ xs) (y ∷ ys) = (x == y) && same_name xs ys

pub record MmMeta : Type 0 where
  pub file_name : List ℕ
  pub offset : ℕ
  pub size : ℕ
  pub magic : ℕ

abbrev pub item_magic : ℕ
item_magic = 0x66666666

abbrev pub block_magic : ℕ
block_magic = 0xdeadbeef

abbrev pub mm_meta_max : ℕ
mm_meta_max = 1000

pub record MetaBlock : Type 0 where
  pub magic : ℕ
  pub mm_meta_nr : ℕ
  pub mm_meta : ℕ → MmMeta

-- `sizeof(MetaBlock)`
abbrev pub size_of_meta_block : ℕ
size_of_meta_block = 2 * 4096 * 4096

-- `new MetaBlock()` over zeros.
unfoldable pub new_meta_block : MetaBlock
new_meta_block = record {
  magic = block_magic;
  mm_meta_nr = 0;
  mm_meta = λ _. record { file_name = []; offset = 0; size = 0; magic = item_magic };
}

-- `reinitialized` is the static flag of `ReInitialize`.
pub record RegisterCenter : Type 0 where
  pub meta_block : MetaBlock
  pub memory : Memory
  pub shmfile_mmap_addr_start : ℕ
  pub shmfile_mmap_addr : ℕ
  pub reinitialized : Bool

abbrev pub data_addr_start : RegisterCenter → ℕ
data_addr_start c = c.shmfile_mmap_addr_start + size_of_meta_block

abbrev pub align : ℕ
align = 2 * 1024 * 1024

abbrev pub dax_mm_size : ℕ
dax_mm_size = 140 * 1024 * 1024 * 1024

-- The loop of `Valid`.
unfoldable pub valid_from : MetaBlock → ℕ → ℕ → Bool
valid_from b i zero = true
valid_from b i (suc left) =
    let rest = valid_from b (i + 1) left in
    if (b.mm_meta i).magic == item_magic then rest else false

unfoldable pub valid : RegisterCenter → Bool
valid c = if c.meta_block.magic == block_magic then valid_from c.meta_block 0 mm_meta_max else false

unfoldable pub re_initialize : RegisterCenter → Outcome RegisterCenter
re_initialize c =
    if c.reinitialized
    then fatal
    else (let c' = record c { meta_block = new_meta_block; reinitialized = true } in
        if valid c' then done c' else fatal)

-- The constructor, for a numa node and a mapping at `addr` that succeeds, over what it holds. A
-- `use_dram` mapping is anonymous. An invalid table is only logged.
unfoldable pub construct : Bool → ℕ → MetaBlock → Memory → Outcome RegisterCenter
construct use_dram addr meta memory =
    let c : RegisterCenter = record {
      meta_block = meta;
      memory = memory;
      shmfile_mmap_addr_start = addr;
      shmfile_mmap_addr = addr + size_of_meta_block;
      reinitialized = false;
    } in
    if use_dram then re_initialize c else done c

-- The loop of `FindIfExists`; the item's index.
unfoldable pub find_from : MetaBlock → List ℕ → ℕ → ℕ → Outcome (Option ℕ)
find_from b name i zero = done none
find_from b name i (suc left) =
    let rest = find_from b name (i + 1) left in
    if same_name (take 64 (b.mm_meta i).file_name) (take 64 name)
    then if (b.mm_meta i).magic == item_magic then done (some i) else fatal
    else rest

unfoldable pub find_if_exists : RegisterCenter → List ℕ → Outcome (Option ℕ)
find_if_exists c name = find_from c.meta_block name 0 c.meta_block.mm_meta_nr

-- `memset(ret, 0, size)`
abbrev pub memset : Memory → ℕ → ℕ → Memory
memset memory ret size a = if leb ret a && ltb a (ret + size) then 0 else memory a

abbrev pub new_size : ℕ → ℕ
new_size size = (size + (align - 1)) % 2 ^ 64 / align * align

-- The end of `append_register`: the new item. `strncpy` stops after 50 characters.
unfoldable pub append_item : RegisterCenter → List ℕ → ℕ → ℕ → Outcome (RegisterCenter × ℕ)
append_item c name size ret =
    let b = c.meta_block in
    let item : MmMeta = record {
      file_name = take 50 name;
      offset = ret - data_addr_start c;
      size = size;
      magic = (b.mm_meta b.mm_meta_nr).magic;
    } in
    let b' = record b {
      mm_meta_nr = b.mm_meta_nr + 1;
      mm_meta = update b.mm_meta b.mm_meta_nr item;
    } in
    if leb b'.mm_meta_nr mm_meta_max then done (record c { meta_block = b' }, ret) else fatal

unfoldable pub append_register : RegisterCenter → List ℕ → ℕ → Outcome (RegisterCenter × ℕ)
append_register c name size =
    if size == 0
    then fatal
    else (let ret = c.shmfile_mmap_addr in
        let c' = record c { shmfile_mmap_addr = (ret + new_size size) % 2 ^ 64 } in
        if ltb ret (data_addr_start c)
          || leb (data_addr_start c + dax_mm_size) ((ret + size) % 2 ^ 64)
        then fatal
        else append_item (record c' { memory = memset c.memory ret size }) name size ret)

-- `Register` of a name that the table has.
unfoldable pub register_found : RegisterCenter → List ℕ → ℕ → ℕ → Outcome (RegisterCenter × ℕ)
register_found c name size i =
    let item = c.meta_block.mm_meta i in
    let start = data_addr_start c + item.offset in
    if item.size == size
    then done (record c { shmfile_mmap_addr = max c.shmfile_mmap_addr (start + item.size) }, start)
    else re_initialize c >>= λ c'. append_register c' name size

unfoldable pub register : RegisterCenter → List ℕ → ℕ → Outcome (RegisterCenter × ℕ)
register c name size = find_if_exists c name >>= λ found. elim found [
  | none ↦ append_register c name size
  | some i ↦ register_found c name size i
]

-- `ForRDMAMemoryRegion`
unfoldable pub for_rdma_memory_region : RegisterCenter → ℕ × ℕ
for_rdma_memory_region c = (data_addr_start c, c.shmfile_mmap_addr - data_addr_start c)
