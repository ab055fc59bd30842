-- ===== src/Tests/Requests.antt =====
-- A request of five keys over two shards.
use pet_ps.Common.{ℕ, ◌≡◌, List, [], ◌∷◌, count, take, ◌==◌, if◌then◌else◌}
use pet_ps.AllShards.{key_partition, sent, max_keys}
use pet_ps.AllShards.Sent.{keys_of, sent-keys_of}

abbrev shard_of : ℕ → ℕ
shard_of key = key_partition (λ k. k) 2 key

abbrev request : List ℕ
request = 4 ∷ 7 ∷ 2 ∷ 9 ∷ 4 ∷ []

sent-keys_of_example :
    (sent shard_of request 0 ≡ take max_keys (4 ∷ 2 ∷ 4 ∷ []))
    × ((key : ℕ)
        → count key (4 ∷ 2 ∷ 4 ∷ []) ≡ (if shard_of key == 0 then count key request else 0))
unfolding keys_of key_partition
sent-keys_of_example = sent-keys_of shard_of request 0
