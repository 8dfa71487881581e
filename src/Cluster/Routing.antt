-- ===== src/Cluster/Routing.antt =====
-- app/cluster/routing.py: a document's shard. The BLAKE2b digest, read as a number, is the
-- parameter `digest`.
use native.Mathlib.Nat.{mod-lt}
use pysearch.Base.{
  ℕ, ◌%◌, ◌<◌, Str, ◌≡◌, subst, sym, if◌then◌else◌, ltb, arith, Result, ok, err, value_error,
  Bool-cases, inl, inr,
}

-- ShardRouter
pub record ShardRouter : Type 0 where
  pub shard_count : ℕ

unfoldable pub shard_router : ℕ → Result ShardRouter
shard_router shard_count =
    if ltb shard_count 1 then err value_error else ok (record { shard_count = shard_count })

unfoldable pub shard_for : (Str → ℕ) → ShardRouter → Str → ℕ
shard_for digest router document_id = digest document_id % router.shard_count

-- A router that could be built has the given number of shards and sends every document to one of
-- them.
pub shard_for-bound :
    (digest : Str → ℕ) (shard_count : ℕ) (router : ShardRouter) (document_id : Str)
    → shard_router shard_count ≡ ok router
    → (shard_for digest router document_id < shard_count) × (router.shard_count ≡ shard_count)
unfolding shard_router shard_for
shard_for-bound digest shard_count router document_id h = elim (Bool-cases (ltb shard_count 1)) [
  | inl e ↦ let raised = rw e at h in cc
  | inr e ↦
      let made : ok (record { shard_count = shard_count }) ≡ ok router = rw e at h in
      let same : shard_count ≡ router.shard_count = cc in
      (
        subst (λ n. digest document_id % n < shard_count) same
            (mod-lt (digest document_id) (ground arith)),
        sym same,
      )
]
