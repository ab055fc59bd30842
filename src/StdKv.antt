-- ===== src/StdKv.antt =====
-- src/pet_kv/std_kv.h: `DBApi` and `TestDB`, the store that tests compare with. A map is a function of
-- the key, and a value is an expiry time with bytes.
use pet_ps.Common.{
  ℕ, ◌/◌, Bool, true, false, Option, none, some, List, [], ltb, ◌==◌, if◌then◌else◌, update,
}

abbrev pub TestDb : Type 0
TestDb = ℕ → Option (ℕ × List ℕ)

-- `Write` with an expiry time, and without one. The Boolean is the result.
unfoldable pub write_expiring : TestDb → ℕ → List ℕ → ℕ → TestDb × Bool
write_expiring db key bytes expire_timet = (update db key (some (expire_timet, bytes)), true)

unfoldable pub write : TestDb → ℕ → List ℕ → TestDb × Bool
write db key bytes = write_expiring db key bytes 0

-- `Read`: what `data` holds, and the expiry time if the key is found, where the caller's `expire_timet` is
-- left alone otherwise.
unfoldable pub read_expiring : TestDb → ℕ → ℕ → List ℕ × ℕ × Bool
read_expiring db key expire_timet = elim (db key) [
  | none ↦ ([], expire_timet, false)
  | some (expire, bytes) ↦ (bytes, expire, true)
]

-- `Read` without an expiry time, at a time in microseconds.
unfoldable pub read : TestDb → ℕ → ℕ → List ℕ × Bool
read db key timestamp =
    let (bytes, expire, found) = read_expiring db key 0 in
    if found
    then if expire == 0
      then (bytes, true)
      else (bytes, if ltb expire (timestamp / 1000000) then false else true)
    else (bytes, false)
