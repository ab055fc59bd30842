-- ===== src/AllShards.antt =====
-- src/ps/allshards_ps_client.h and src/ps/shard_manager.h: the keys of a request are shared out over
-- the shards. `get_hash` is the hash of base/hash.h. A buffer is a list. The callback that puts the
-- answers together is compiled only with RPC_DEBUG and is left out.
pub mod Sent
use pet_ps.Common.{
  ℕ, zero, suc, ◌+◌, ◌%◌, Option, none, some, List, [], ◌∷◌, ◌++◌, map, length, take, ltb,
  if◌then◌else◌, update,
}

module _ (get_hash : ℕ → ℕ) (num_servers : ℕ) where
  unfoldable pub key_partition : ℕ → ℕ
  key_partition key = get_hash key % num_servers

-- `partitioned_key_buffer_` after the loop over the keys, from what it held.
unfoldable pub partition_from : (ℕ → ℕ) → (ℕ → List ℕ) → List ℕ → ℕ → List ℕ
partition_from shard_of buffer [] = buffer
partition_from shard_of buffer (k ∷ keys) =
    let shard = shard_of k in
    partition_from shard_of (update buffer shard (buffer shard ++ (k ∷ []))) keys

abbrev pub max_keys : ℕ
max_keys = 500

-- `resize(500)` of a longer buffer.
unfoldable pub limited : List ℕ → List ℕ
limited buffer = if ltb max_keys (length buffer) then take max_keys buffer else buffer

-- What the shards are sent.
unfoldable pub sent : (ℕ → ℕ) → List ℕ → ℕ → List ℕ
sent shard_of keys shard = limited (partition_from shard_of (λ _. []) keys shard)
