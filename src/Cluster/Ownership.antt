-- ===== src/Cluster/Ownership.antt =====
-- A write reaches the primary of the one shard that owns its document.
use pysearch.Base.{
  ℕ, zero, suc, ◌+◌, ◌<◌, Str, Bool, true, false, not, Option, some, List, [], ◌∷◌, ◌≡◌, refl, ap,
  sym, length, get_elem?, ◌==◌, ==_iff, arith, inl, inr, Bool-cases, Result, Result-cases, ok,
  and_then, raise_if, value_error,
}
use pysearch.Float.{Float}
use pysearch.Document.{Document}
use pysearch.Analysis.{Unicode}
use pysearch.Cluster.{ShardCopies, check_positions, cluster_topology, copies_for}
use pysearch.Cluster.Routing.{ShardRouter, shard_router, shard_for, shard_for-bound}
use pysearch.Cluster.Coordinator.{
  Coordinator, QueryEmbedder, new_coordinator, owner_of, route_put, route_delete,
}

in_range {ℓ} :
    {A : Type ℓ} (xs : List A) (i : ℕ) → i < length xs → (x : A) × (get_elem? xs i ≡ some x)
in_range [] i h = absurd (omega arith)
in_range (x ∷ xs) zero h = (x, refl)
in_range (x ∷ xs) (suc i) h = in_range xs i (omega arith)

passed :
    (b : Bool) (rest : Result (Unit {0}))
    → and_then (raise_if (not b) value_error) (λ _. rest) ≡ ok tt
    → (b ≡ true) × (rest ≡ ok tt)
passed true rest h = (refl, h)
passed false rest h = cc

module _ {S : Type 0} {fl : Float} {V : Type 0} where
  -- In a topology that was accepted, the shard at a position has that number.
  check_positions-id :
      (position i : ℕ) (shards : List (ShardCopies S fl V)) (copies : ShardCopies S fl V)
      → check_positions position shards ≡ ok tt
      → get_elem? shards i ≡ some copies
      → copies.shard_id ≡ position + i
  unfolding check_positions
  check_positions-id position i [] copies h g = cc
  check_positions-id position zero (shard ∷ shards) copies h g =
      let here = (==_iff shard.shard_id position).0 (passed _ _ h).0 in
      let same : shard ≡ copies = cc in omega (arith, here, sym (ap (λ c. c.shard_id) same))
  check_positions-id position (suc i) (shard ∷ shards) copies h g =
      omega (arith, check_positions-id (position + 1) i shards copies (passed _ _ h).1 g)

  -- What it takes for the coordinator to come up.
  pub record Starts (digest : Str → ℕ) (unicode : Unicode) (shard_count : ℕ)
      (shards : List (ShardCopies S fl V)) (embedder : Option (QueryEmbedder V))
      (c : Coordinator S fl V) : Type 0 where
    pub router : ShardRouter
    pub routes : shard_router shard_count ≡ ok router
    pub placed : cluster_topology shards ≡ ok shards
    pub built : new_coordinator digest unicode router shards embedder ≡ ok c

  placed_check :
      (shards : List (ShardCopies S fl V))
      → cluster_topology shards ≡ ok shards
      → check_positions 0 shards ≡ ok tt
  unfolding cluster_topology
  placed_check shards h = elim (Result-cases (check_positions 0 shards)) [
    | inl (u, e) ↦ e
    | inr (error, e) ↦ let raised = rw e at h in absurd cc
  ]

  module _ {digest : Str → ℕ} {unicode : Unicode} {shard_count : ℕ}
      {shards : List (ShardCopies S fl V)} {embedder : Option (QueryEmbedder V)}
      {c : Coordinator S fl V} where
    configured :
        (v : Starts digest unicode shard_count shards embedder c)
        → (c.topology ≡ shards)
          × (c.router ≡ v.router)
          × (c.digest ≡ digest)
          × (length shards ≡ v.router.shard_count)
    unfolding new_coordinator
    configured v = elim (Bool-cases (length shards == v.router.shard_count)) [
      | inr e ↦ let raised = rw e at v.built in absurd cc
      | inl e ↦
          let built = rw e at v.built in
          let same : record {
            digest = digest;
            unicode = unicode;
            router = v.router;
            topology = shards;
            embedder = embedder;
          }
              ≡ c =
            cc in
          (
            sym (ap (λ o. o.topology) same),
            sym (ap (λ o. o.router) same),
            sym (ap (λ o. o.digest) same),
            (==_iff _ _).0 e,
          )
    ]

    owner_found :
        (v : Starts digest unicode shard_count shards embedder c) (d : Str)
        (copies : ShardCopies S fl V)
        → copies_for shards (shard_for digest v.router d) ≡ some copies
        → owner_of c d ≡ ok copies.primary
    unfolding owner_of
    owner_found v d copies found =
        let (topology, router, digests, count) = configured v in
        rw (owner_of, topology, router, digests, found)

    -- In a coordinator that could be built, a write or a deletion is one request, to the primary
    -- of the shard that the router gives, which is in the topology at that place and under that
    -- number.
    pub writes-owner :
        (v : Starts digest unicode shard_count shards embedder c) (x : Document) (s : S)
        → let shard_id = shard_for digest v.router x.document_id in
          (copies : ShardCopies S fl V) × (copies_for shards shard_id ≡ some copies)
          × (copies.shard_id ≡ shard_id)
          × (route_put c x s ≡ copies.primary.put_document x s)
          × (route_delete c x.document_id s ≡ copies.primary.delete_document x.document_id s)
    unfolding route_put route_delete
    writes-owner v x s =
        let (topology, router, digests, count) = configured v in
        let bound = shard_for-bound digest shard_count v.router x.document_id v.routes in
        let (copies, found) =
          in_range shards (shard_for digest v.router x.document_id)
            (omega (arith, bound.0, bound.1, count)) in
        (
          copies,
          found,
          (omega (
            arith,
            check_positions-id 0 (shard_for digest v.router x.document_id) shards copies
                (placed_check shards v.placed) found,
          )),
          rw (owner_found v x.document_id copies found),
          rw (owner_found v x.document_id copies found),
        )
