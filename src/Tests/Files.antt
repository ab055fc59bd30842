-- ===== src/Tests/Files.antt =====
-- Two files in a mapping of DRAM, and a file system with one file.
use pet_ps.Common.{ℕ, true, false, some, none, List, [], ◌∷◌, ◌==◌, if◌then◌else◌, ◌≡◌, refl, arith}
use pet_ps.Common.Outcome.{done, Returns}
use pet_ps.ShmFile.{RegisterCenter, register, find_if_exists, find_from, new_meta_block}
use pet_ps.ShmFile.Regions.{fresh, fresh-IsCenter, register-Registered, register-again}
use pet_ps.ShmFile.Center.{IsCenter, Registered, registered}
use pet_ps.ShmFile.Files.{ShmFile, System}

abbrev center : RegisterCenter
center = fresh 4096 (λ _. 7)

center-IsCenter : IsCenter center
center-IsCenter = fresh-IsCenter 4096 (λ _. 7) (omega arith)

abbrev dict_name : List ℕ
dict_name = 47 ∷ 100 ∷ []

dict_absent : find_if_exists center dict_name ≡ done none
unfolding find_if_exists find_from new_meta_block
dict_absent = refl

register-Registered_example :
    Returns (register center dict_name 4096) (Registered center dict_name 4096)
unfolding new_meta_block
register-Registered_example =
    register-Registered center dict_name 4096 center-IsCenter dict_absent (omega arith)
      (omega arith) (omega arith)

register-again_example :
    Returns (register center dict_name 4096) (λ r. register r.0 dict_name 4096 ≡ done (r.0, r.1))
unfolding new_meta_block
register-again_example =
    register-again center dict_name 4096 center-IsCenter dict_absent (omega arith) (omega arith)
      (omega arith) (omega arith)

abbrev with_dict : RegisterCenter
with_dict = registered center dict_name 4096

-- The system's state is the size of its only file.
abbrev one_file : System ℕ
one_file = record {
  exists = λ w name. if w == 0 then false else true;
  allocate = λ w name size. size;
  file_size = λ w name. w;
  open_file = λ w name. some 3;
  mmap = λ w fd size. some 65536;
  unmap = λ w addr size fd. w;
}

abbrev no_file : ShmFile
no_file = record { filename = []; data_addr = none; size = 0; fd = none }
