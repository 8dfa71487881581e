-- ===== src/Cluster/Available.antt =====
-- What the coordinator reports of the cluster: its status and its readiness say the same.
use pysearch.Base.{
  ℕ, ◌+◌, Str, Bool, true, false, ◌&&◌, ◌||◌, List, [], ◌∷◌, ◌≡◌, refl, ap, sym, ◌∙◌, map, length,
  replicate, All, codes, Result, ok, err, inl, inr, Bool-cases, arith,
}
use mathlib.Core.Path.{ap₂}
use pysearch.Float.{Float}
use pysearch.Cluster.{NodeStatus, ShardClient, ShardCopies, serving_order}
use pysearch.Cluster.Coordinator.{Coordinator, run_all, any_copy_ready}
use pysearch.Cluster.Distributed.{run_all_each, All-map}
use pysearch.Cluster.Status.{
  copy_status, copy_statuses, any, all, is_empty, sort_outcomes, shard_health, health_of_shards,
  readiness, cluster_status,
}

abbrev pub ready_in : Result NodeStatus → Bool
ready_in (ok status) = status.ready
ready_in (err _) = false

copy_status-ready :
    (role : Str) (outcome : Result NodeStatus) → (copy_status role outcome).ready ≡ ready_in outcome
copy_status-ready role (ok status) = refl
copy_status-ready role (err error) = refl

any-copy_statuses {ℓ} :
    {B : Type ℓ} (f : B → Result NodeStatus) (role : Str) (xs : List B)
    → any (λ status. status.ready) (copy_statuses (replicate (length xs) role) (map f xs))
      ≡ any (λ x. ready_in (f x)) xs
any-copy_statuses f role [] = refl
any-copy_statuses f role (x ∷ xs) =
    ap₂ (λ a b. a || b) (copy_status-ready role (f x)) (any-copy_statuses f role xs)

-- The shards that are not ready, from a position on: none exactly if all are.
no_unready {ℓ} :
    {B : Type ℓ} (up : B → Bool) (position : ℕ) (xs : List B)
    → is_empty (sort_outcomes position (map ok (map up xs))).1 ≡ all up xs
no_unready up position [] = refl
no_unready up position (x ∷ xs) = elim (Bool-cases (up x)) [
  | inl e ↦ rw e (no_unready up (position + 1) xs)
  | inr e ↦ rw e
]

all-implied {ℓ} :
    {B : Type ℓ} (p q : B → Bool) (xs : List B)
    → ((x : B) → p x ≡ true → q x ≡ true)
    → (all p xs && all q xs) ≡ all p xs
all-implied p q [] h = refl
all-implied p q (x ∷ xs) h = ground (arith, h x, all-implied p q xs h)

module _ {S : Type 0} {fl : Float} {V : Type 0} (s : S) where
  -- A copy whose probes change nothing, and that answers both alike.
  abbrev pub Probed : ShardClient S fl V → Type 0
  Probed client =
      (client.is_ready s ≡ (ok (ready_in (client.node_status s).0), s))
      × ((client.node_status s).1 ≡ s)

  abbrev pub is_up : ShardClient S fl V → Bool
  is_up client = ready_in (client.node_status s).0

  abbrev pub has_ready_copy : ShardCopies S fl V → Bool
  has_ready_copy copies = any is_up (serving_order copies)

  any_copy_ready-any :
      (clients : List (ShardClient S fl V))
      → All Probed clients
      → any_copy_ready clients s ≡ (ok (any is_up clients), s)
  unfolding any_copy_ready
  any_copy_ready-any [] h = refl
  any_copy_ready-any (client ∷ clients) h = rw (h.0.0) (elim (Bool-cases (is_up client)) [
    | inl up ↦ rw (up, ap (λ r. r.1) h.0.0)
    | inr down ↦ rw (down, ap (λ r. r.1) h.0.0) (any_copy_ready-any clients h.1)
  ])

  run_all-probes :
      (clients : List (ShardClient S fl V))
      → All Probed clients
      → run_all (map (λ client. client.node_status) clients) s
        ≡ (map (λ client. (client.node_status s).0) clients, s)
  unfolding run_all
  run_all-probes [] h = refl
  run_all-probes (client ∷ clients) h = rw (h.0.1, run_all-probes clients h.1)

  shard_health-available :
      (copies : ShardCopies S fl V)
      → All Probed (serving_order copies)
      → ((shard_health copies s).0.search_available ≡ has_ready_copy copies)
        × ((shard_health copies s).0.write_available ≡ is_up copies.primary)
        × ((shard_health copies s).1 ≡ s)
  unfolding shard_health
  shard_health-available copies h = rw (run_all-probes (serving_order copies) h) (
    ap₂ (λ a b. a || b) (copy_status-ready (codes "primary") (copies.primary.node_status s).0)
        (any-copy_statuses (λ client. (client.node_status s).0) (codes "replica") copies.replicas),
    copy_status-ready (codes "primary") (copies.primary.node_status s).0,
    refl,
  )

  health_of_shards-available :
      (topology : List (ShardCopies S fl V))
      → All (λ copies. All Probed (serving_order copies)) topology
      → (all (λ shard. shard.search_available) (health_of_shards topology s).0
          ≡ all has_ready_copy topology)
        × (all (λ shard. shard.write_available) (health_of_shards topology s).0
            ≡ all (λ copies. is_up copies.primary) topology)
        × ((health_of_shards topology s).1 ≡ s)
  unfolding health_of_shards
  health_of_shards-available [] h = (refl, refl, refl)
  health_of_shards-available (copies ∷ topology) h =
      let here = shard_health-available copies h.0 in
      let there = health_of_shards-available topology h.1 in
      rw (here.2, here.0, here.1) (rw (there.0, there.1, there.2) (refl, refl, refl))

  -- Let every copy answer both probes alike and change nothing: it says that it is ready exactly if
  -- its status can be had and says so. Then the cluster is ready exactly if every shard has a copy
  -- that is, the status calls it searchable exactly then, and writable exactly if every primary is
  -- ready. What is writable is searchable, and neither report changes anything.
  pub cluster_status-readiness :
      (c : Coordinator S fl V)
      → All (λ copies. All Probed (serving_order copies)) c.topology
      → ((readiness c s).0.ready ≡ all has_ready_copy c.topology)
        × ((cluster_status c s).0.search_available ≡ (readiness c s).0.ready)
        × ((cluster_status c s).0.write_available ≡ all (λ copies. is_up copies.primary) c.topology)
        × (((cluster_status c s).0.write_available && (cluster_status c s).0.search_available)
            ≡ (cluster_status c s).0.write_available)
        × ((cluster_status c s).1 ≡ s)
        × ((readiness c s).1 ≡ s)
  unfolding readiness cluster_status
  cluster_status-readiness c h =
      let there = health_of_shards-available c.topology h in
      let probed =
        run_all_each (λ copies. any_copy_ready (serving_order copies)) has_ready_copy s c.topology
          (All-map (λ copies k. any_copy_ready-any (serving_order copies) k) c.topology h) in
      let searched = no_unready has_ready_copy 0 c.topology in
      let implied =
        all-implied (λ copies. is_up copies.primary) has_ready_copy c.topology
          (λ copies up. rw up) in
      rw probed
        (searched, there.0 ∙ sym searched, there.1, rw (there.0, there.1) implied, there.2, refl)
