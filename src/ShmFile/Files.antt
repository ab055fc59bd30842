-- ===== src/ShmFile/Files.antt =====
-- src/memory/shm_file.cc: `ShmFile`, a file that is mapped into memory. The file system and the mapping
-- calls are parameters, over a state `W` of the system.
use pet_ps.Common.{
  ℕ, Bool, true, false, Option, none, some, List, [], ◌==◌, if◌then◌else◌, ◌≡◌, ◌≢◌, ◌⊎◌,
}
use pet_ps.Common.Outcome.{Outcome, done, fatal, ◌>>=◌}
use pet_ps.ShmFile.{RegisterCenter, register}

-- `data_` and `fd_` are `none` for NULL and -1.
pub record ShmFile : Type 0 where
  pub filename : List ℕ
  pub data_addr : Option ℕ
  pub size : ℕ
  pub fd : Option ℕ

-- The calls of the system: `fs::exists`, `create_directories` with `fallocate`, `fs::file_size`, `open`,
-- `mmap` of a descriptor and a size, and `munmap` with `close`.
pub record System (W : Type 0) : Type 0 where
  pub exists : W → List ℕ → Bool
  pub allocate : W → List ℕ → ℕ → W
  pub file_size : W → List ℕ → ℕ
  pub open_file : W → List ℕ → Option ℕ
  pub mmap : W → ℕ → ℕ → Option ℕ
  pub unmap : W → Option ℕ → ℕ → ℕ → W

module _ {W : Type 0} (sys : System W) where
  abbrev pub clear_open : W → ShmFile → Option ℕ → W × ShmFile
  clear_open w f none = (w, f)
  clear_open w f (some fd) = (
    sys.unmap w f.data_addr f.size fd,
    record { filename = []; data_addr = none; size = 0; fd = none },
  )

  unfoldable pub clear_fs_dax : W → ShmFile → W × ShmFile
  clear_fs_dax w f = clear_open w f f.fd

  -- The file's creation where it does not exist.
  abbrev pub created : W → List ℕ → ℕ → W
  created w name size = if sys.exists w name then w else sys.allocate w name size

  unfoldable pub map_file : W → ShmFile → List ℕ → Outcome (W × ShmFile × Bool)
  map_file w f name = elim (sys.open_file w name) [
    | none ↦ done (w, f, false)
    | some fd ↦ elim (sys.mmap w fd f.size) [
      | none ↦ fatal
      | some addr ↦
          done (w, record f { filename = name; data_addr = some addr; fd = some fd }, true)
    ]
  ]

  unfoldable pub initialize_fs_dax : W → ShmFile → List ℕ → ℕ → Outcome (W × ShmFile × Bool)
  initialize_fs_dax w f name size =
      let (w', f') = clear_fs_dax w f in
      let w'' = created w' name size in
      let f'' = record f' { size = sys.file_size w'' name } in
      if f''.size == size then map_file w'' f'' name else done (w'', f'', false)

  -- `InitializeDevDax`: the memory comes from the register center, and a small file marks the name.
  unfoldable pub initialize_dev_dax :
      W → RegisterCenter → ShmFile → List ℕ → ℕ → Outcome (W × RegisterCenter × ShmFile × Bool)
  initialize_dev_dax w c f name size = register c name size >>= λ (c', addr).
      done (
        created w name 1,
        c',
        record f { filename = name; data_addr = some addr; size = size },
        true,
      )

  -- `Initialize`: `dev_dax` says that /dev/dax0.0 exists.
  unfoldable pub initialize :
      Bool
      → Bool
      → W
      → RegisterCenter
      → ShmFile
      → List ℕ
      → ℕ
      → Outcome (W × RegisterCenter × ShmFile × Bool)
  initialize use_dram dev_dax w c f name size =
      if use_dram
      then initialize_dev_dax w c f name size
      else if dev_dax
      then initialize_dev_dax w c f name size
      else initialize_fs_dax w f name size >>= λ (w', f', ok). done (w', c, f', ok)

  unfoldable pub clear : Bool → W → ShmFile → W × ShmFile
  clear dev_dax w f = if dev_dax then (w, f) else clear_fs_dax w f

  -- A file without a descriptor has no memory.
  pub record IsFile (f : ShmFile) : Type 0 where
    pub shut : (f.fd ≢ none) ⊎ (f.data_addr ≡ none)

  -- The two answers of `Initialize`: a file of the size that is asked for is mapped, or none is.
  pub record Mapped (name : List ℕ) (size : ℕ) (f : ShmFile) : Type 0 where
    pub filename : f.filename ≡ name
    pub size_of : f.size ≡ size
    pub fd : f.fd ≢ none
    pub memory : f.data_addr ≢ none

  pub record Unmapped (f : ShmFile) : Type 0 where
    pub fd : f.fd ≡ none
    pub memory : f.data_addr ≡ none

  -- The answers in a state of the system.
  abbrev pub Answer : W → List ℕ → ℕ → W × ShmFile × Bool → Type 0
  Answer before name size (w, f, ok) =
      IsFile f
      × (w ≡ before)
      × (((ok ≡ true)
            × Mapped name size f
            × (sys.file_size w name ≡ size)
            × (sys.open_file w name ≡ f.fd))
          ⊎ ((ok ≡ false)
              × Unmapped f
              × ((sys.file_size w name ≢ size) ⊎ (sys.open_file w name ≡ none))))
