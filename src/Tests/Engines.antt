-- ===== src/Tests/Engines.antt =====
-- An engine over memory for eight slabs of 16 bytes.
use pet_ps.Common.{ℕ, Option, none, List, [], ◌∷◌, map, ◌≡◌, refl, inl, arith}
use pet_ps.Common.Outcome.{done, Returns}
use pet_ps.StdKv.{TestDb, read_expiring}
use pet_ps.Engine.{Engine, std_map, get, put, batch_get}
use pet_ps.Engine.Stored.{Represents, put-Represents, get-Represents}
use pet_ps.Engine.Written.{write_new}
use pet_ps.Engine.Maps.{std_map-IsTable}
use pet_ps.Engine.Batch.{view, bytes_in, batch_get-view}
use pet_ps.Tests.Stores.{layout, layout-IsLayout}

abbrev pub engine : Engine (ℕ → Option ℕ)
engine = record {
  hash_table = λ _. none;
  shm_malloc = record {
    memory_size = 128;
    slab_size = 16;
    allocated = 16;
    nr_malloc = 0;
    meta_data_block = λ _. 0;
  };
  memory = λ _. 0;
}

abbrev pub no_values : TestDb
no_values = λ _. none

pub engine-Represents : Represents std_map layout engine no_values
engine-Represents = record {
  cursor = record {
    slab = omega arith;
    room = omega arith;
    bound = omega arith;
    inside = omega arith;
  };
  width = 48;
  layout = layout-IsLayout;
  covers = omega arith;
  aligned = refl;
  cursor_aligned = refl;
  keys = λ key. inl (refl, refl);
}

abbrev sixteen : List ℕ
sixteen = 1 ∷ 2 ∷ 3 ∷ 4 ∷ 5 ∷ 6 ∷ 7 ∷ 8 ∷ 9 ∷ 10 ∷ 11 ∷ 12 ∷ 13 ∷ 14 ∷ 15 ∷ 16 ∷ []

put-Represents_example :
    Returns
      (put std_map layout engine 7 sixteen)
      (λ e'. Represents std_map layout e' (write_new no_values 7 sixteen))
put-Represents_example =
    put-Represents std_map layout std_map-IsTable engine no_values 7 sixteen engine-Represents refl
      (omega arith)

-- The engine after that.
abbrev one_value : Engine (ℕ → Option ℕ)
one_value = put-Represents_example.0

get-Represents_example :
    get std_map layout one_value 7 ≡ done (read_expiring (write_new no_values 7 sixteen) 7 0).0
get-Represents_example =
    get-Represents std_map layout one_value (write_new no_values 7 sixteen) 7
      put-Represents_example.2

batch_get-view_example : Returns (batch_get std_map layout one_value (7 ∷ 8 ∷ [])) (λ vs.
    map (view std_map layout one_value) vs
    ≡ map (bytes_in (write_new no_values 7 sixteen)) (7 ∷ 8 ∷ []))
batch_get-view_example =
    batch_get-view std_map layout one_value (write_new no_values 7 sixteen) (7 ∷ 8 ∷ [])
      put-Represents_example.2
