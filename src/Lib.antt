-- ===== src/Lib.antt =====
-- PetPS: an embedding parameter server on persistent memory. This library models the storage side of
-- one server: the hash index, the memory behind its values and the reclamation of that memory.
--
-- The parts and where they stand. A key is looked up in `PetHash` (src/pet_kv/pet_hash.h), whose value
-- is a `PetKVData` (src/pet_kv/shm_common.h), 64 bits that pack an offset into a shard's memory with
-- an expiry time. The memory is cut into chunks of slabs by `PersistMemoryPool`
-- (src/memory/persist_malloc.h), each with a bit map of the slabs taken (src/base/bitmap.h). A value
-- that is replaced is not freed at once: a recycler (src/memory/malloc.h) keeps it until no reader can
-- hold it, which the epochs of the readers tell (src/memory/epoch_manager.h).
--
-- The files. `Common` has the shared names, the Boolean tests, lists and arrays by index, powers of
-- two and bits of words, and `Outcome`, the three ways in which a call ends: with a value, in a failed
-- CHECK or LOG(FATAL), or in a loop that only another thread's write can end.
-- `BitMap` models src/base/bitmap.h; `BitMap/Words`, `BitMap/Positions` and `BitMap/Ones` prove its
-- reads after writes, its searches and its count.
-- `KvData` models `PetKVData` and the choice of its layout in src/pet_kv/pet_kv.cc.
-- `PetHash` models src/pet_kv/pet_hash.h: `Mask` is SparseMaskIter, `Chunk` is F14Chunk, `Table` the
-- fields, the hash, the probe sequence and Initialize, `Search` is GetInternal with Get and Lookup,
-- `Insert` is Insert and Set, `Delete` is Delete, `Migration` is HotnessAwareMigration. The proofs:
-- `Find` and `Slots` on one chunk, `Probe` and `Walk` on the probe sequence, `Invariant` says when a
-- table is well formed, `Lookup` and `ById` what a search finds, `Removal`, `Erased` and `Erase` what
-- Delete does, `Bump`, `Filled`, `Fill`, `Insertion`, `Steps`, `Room` and `Setting` what Insert and
-- Set do in a table with room, `Fading` and `Safety` what they do in any table with any check
-- function, `Setup` the table after Initialize, `Valid` is Valid with its proof, `Reload` is Reload,
-- which `Repair`, `Marked` and `Recount` prove pass by pass and `Reloaded` as a whole.
-- `Epoch` models EpochManager and MinEpochTable. `Epoch/Steps` has the interleavings of its threads,
-- with a step for each access to what they share, `Epoch/Guarded` their invariant, which `Epoch/Kept`
-- shows of every step, `Epoch/Trace` what holds in all of them, and `Epoch/Alone` the steps of one
-- operation that runs alone.
-- `Recycle` models the three recyclers over an allocator that is a parameter.
-- `Pool` models PersistMemoryPool::Chunk: `Pool/Cut` proves how it is cut into slabs, `Pool/Slab` its
-- Malloc, Free and Recovery. `MemoryPool` models PersistMemoryPool over such chunks: `Invariant` says
-- when a pool is well formed, `Use` is on a chunk put to use, `Taken` and `New` on NewInternal,
-- `Release` on Free, `Relisted` and `Restart` on the constructor over an existing file.
-- `SimpleMalloc` models PersistSimpleMalloc, and `SimpleMalloc/Cursor` what it hands out.
-- `Common/Bytes` has the bytes of a mapped file; `MemoryPool/Sized` models New, Free and the lookups
-- of a pool that is given a list of sizes. `Geometry`, `Slabs` and `Placement` prove where it puts a
-- value, `Start` is on the constructor over a new file.
-- `PetKv` models src/pet_kv/pet_kv.h and src/pet_kv/pet_kv.cc, one shard of the store over the index,
-- the pool and the recycler. `PetKv/Store` says when a shard is well formed and what it reads, `Queue`
-- is on the values that wait to be freed, `Written`, `Retire`, `Finish`, `Writing` and `Update` prove
-- Update, `Start` is the constructor, which `Fresh` proves for a first start.
-- `StdKv` models src/pet_kv/std_kv.h, the store the tests compare with, which is the specification
-- here.
-- `MultiKv` models the shards of PetMultiKV and the engine src/kv_engine/engine_pethash.h,
-- `MultiKv/Refines` proves them against `StdKv`, and `MultiKv/Batch` their BatchGet.
-- `Engine` models src/kv_engine/engine_map.h, an index over the memory of `SimpleMalloc`, and its
-- children the engines over other maps: `MapPm` (engine_mappm.h), `MultiMapPm`
-- (engine_multishard_map_pm.h), `F14` (engine_f14.h), `HashApi` (engine_hashapi.h) and `Fake`
-- (engine_fake.h). `Engine/Stored` proves Get and Put against `StdKv` for any map whose insert keeps
-- the value of a key that it has (`Engine/Written`), `Engine/Batch` BatchGet, and `Engine/Maps` says
-- which maps are such.
-- `ShmFile` models PMMmapRegisterCenter of src/memory/shm_file.h, which cuts the mapped memory into
-- files, `ShmFile/Center` says when its table is well formed, `ShmFile/Regions` proves the regions
-- apart, and `ShmFile/Files` is the class ShmFile with its proof.
-- `Load` models src/ps/load_db.h, which fills a server's store: `Load/Ranges` is on the threads'
-- shares, `Load/Filled` and `Load/Loaded` on the store after PreLoadDB, `Load/Values` and
-- `Load/Checked` on CheckDBLoad, and `Load/Mapped` shows that the engine of `Engine`, while it has
-- room, is a store that they ask for.
-- `AllShards` models how a request's keys are shared out over the shards (src/ps/shard_manager.h,
-- src/ps/allshards_ps_client.h), `AllShards/Sent` proves what each shard is sent.
-- `Tests` has the properties at concrete inputs.
--
-- How code becomes definitions. A number is a natural number, with the wrap-around of its width
-- written out where it can be reached; a position or a pointer of -1 or null is `none`. An array is a
-- function of its index. State is passed on explicitly. A loop is recursion on the rounds left: the
-- loops over chunks have chunk_num rounds in the source, Next2Power needs at most 64 doublings, the
-- loop of Use lowers the entries by 64 in each round and has as many rounds as fit in the first guess,
-- and the loop of Delete is given chunk_num rounds, which are enough in a well-formed table since the
-- probe sequence meets every chunk once. The retry of GetInternal over a table that nobody else writes
-- would repeat the same pass, so it is `spin`; the theorems show that it is not reached.
--
-- Parameters. `crc` is the instruction _mm_crc32_u64(0, key): nothing is assumed of it. `scale` is the
-- floating-point division of the capacity by the load factor. The maps of folly and of the hash table
-- suite are any `find` and `insert`. The allocator behind a recycler is any state with a `free`. The
-- hash of src/base/hash.h is a function, and so are the calls of the file system and of mmap, the
-- store that is loaded, the bytes of a float and the comparison of two floats. A thread is the index
-- of its entry in the epoch table.
--
-- Not modelled. Locks, prefetches and cache-line flushes have no effect on the values here, and the
-- operations of the index run one at a time. A scan of one entry's deque is one step, and the epochs
-- are read and written in one order that all threads see. The callback that gathers the answers of the
-- shards is compiled only with RPC_DEBUG. The threads of LoadDBHelper run one after the other. The int
-- in which CheckDBLoad counts is written out, and `none` is its overflow. No theorem is about
-- HotnessAwareMigration. The RDMA transport, the benchmarks, the engines over Dash and PMDK and the
-- third-party code hold none of this logic.
pub mod Common
pub mod BitMap
pub mod KvData
pub mod PetHash
pub mod PetKv
pub mod StdKv
pub mod MultiKv
pub mod Epoch
pub mod Recycle
pub mod Pool
pub mod MemoryPool
pub mod ShmFile
pub mod SimpleMalloc
pub mod Engine
pub mod AllShards
pub mod Load
pub mod Tests
