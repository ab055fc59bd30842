-- ===== src/AllShards/Sent.antt =====
-- What the shards are sent of a request.
use pet_ps.Common.{
  zero, suc, count, take, inl, ℕ, ◌≤◌, List, [], ◌∷◌, ◌++◌, length, ltb, ◌==◌, if◌then◌else◌,
  update, ◌≡◌, refl, sym, ap, ◌∙◌, arith, Bool-cases, inl, inr, ==→eq,
}
use pet_ps.AllShards.{partition_from, limited, max_keys, sent}

-- The keys of a shard, in order.
unfoldable pub keys_of : (ℕ → ℕ) → List ℕ → ℕ → List ℕ
keys_of shard_of [] shard = []
keys_of shard_of (k ∷ keys) shard =
    if shard_of k == shard then k ∷ keys_of shard_of keys shard else keys_of shard_of keys shard

append_nil {ℓ} : {A : Type ℓ} (xs : List A) → xs ++ [] ≡ xs
append_nil [] = refl
append_nil (x ∷ xs) = ap (λ l. x ∷ l) (append_nil xs)

append_assoc {ℓ} : {A : Type ℓ} (xs ys zs : List A) → (xs ++ ys) ++ zs ≡ xs ++ (ys ++ zs)
append_assoc [] ys zs = refl
append_assoc (x ∷ xs) ys zs = ap (λ l. x ∷ l) (append_assoc xs ys zs)

-- The loop appends to each buffer the keys of its shard.
partition_from-keys_of :
    (shard_of : ℕ → ℕ) (buffer : ℕ → List ℕ) (keys : List ℕ) (shard : ℕ)
    → partition_from shard_of buffer keys shard ≡ buffer shard ++ keys_of shard_of keys shard
unfolding partition_from keys_of
partition_from-keys_of shard_of buffer [] shard = sym (append_nil (buffer shard))
partition_from-keys_of shard_of buffer (k ∷ keys) shard =
    let s = shard_of k in
    let next = update buffer s (buffer s ++ (k ∷ [])) in
    partition_from-keys_of shard_of next keys shard ∙ elim (Bool-cases (s == shard)) [
      | inr e ↦ rw e refl
      | inl e ↦
          rw (e, ==→eq s shard e)
            (append_assoc (buffer shard) (k ∷ []) (keys_of shard_of keys shard))
    ]

take_all {ℓ} : {A : Type ℓ} (n : ℕ) (xs : List A) → length xs ≤ n → take n xs ≡ xs
take_all zero [] h = refl
take_all (suc n) [] h = refl
take_all zero (x ∷ xs) h = absurd (omega arith)
take_all (suc n) (x ∷ xs) h = ap (λ l. x ∷ l) (take_all n xs (omega arith))

limited-take : (buffer : List ℕ) → limited buffer ≡ take max_keys buffer
unfolding limited
limited-take buffer = elim (Bool-cases (ltb max_keys (length buffer))) [
  | inl long ↦ rw long refl
  | inr short ↦ rw short (sym (take_all max_keys buffer (ground (arith, short))))
]

count-keys_of :
    (shard_of : ℕ → ℕ) (keys : List ℕ) (shard key : ℕ)
    → count key (keys_of shard_of keys shard)
      ≡ (if shard_of key == shard then count key keys else 0)
unfolding keys_of count
count-keys_of shard_of [] shard key = ground arith
count-keys_of shard_of (k ∷ keys) shard key =
    let rest = count-keys_of shard_of keys shard key in
    elim (Bool-cases (k == key)) [
      | inl same ↦
          let here : shard_of k ≡ shard_of key = ap shard_of (==→eq k key same) in
          ground (arith, rest, here, same)
      | inr apart ↦ ground (arith, rest, apart)
    ]

-- A shard is sent the keys of the request that are partitioned to it, in the request's order and cut to
-- the first 500. Before the cut, a key is there for its own shard as often as the request has it, and
-- for no other shard.
pub sent-keys_of :
    (shard_of : ℕ → ℕ) (keys : List ℕ) (shard : ℕ)
    → (sent shard_of keys shard ≡ take max_keys (keys_of shard_of keys shard))
      × ((key : ℕ)
          → count key (keys_of shard_of keys shard)
            ≡ (if shard_of key == shard then count key keys else 0))
unfolding sent
sent-keys_of shard_of keys shard = (
  limited-take (partition_from shard_of (λ _. []) keys shard)
      ∙ ap (take max_keys) (partition_from-keys_of shard_of (λ _. []) keys shard),
  λ key. count-keys_of shard_of keys shard key,
)
