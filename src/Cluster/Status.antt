-- ===== src/Cluster/Status.antt =====
-- app/cluster/coordinator.py: index_stats (here cluster_index_stats), readiness and cluster_status. The last two are not taken
-- under the coordinator's lock and never raise.
use pysearch.Base.{
  ℕ, ◌+◌, Str, Bool, true, false, ◌&&◌, ◌||◌, Option, none, some, List, [], ◌∷◌, map, length, sum,
  replicate, if◌then◌else◌, ◌==◌, codes, Result, ok, err, Exec, pure, ◌>>=◌,
}
use pysearch.Float.{Float}
use pysearch.Ranking.{IndexStats}
use pysearch.Engine.{NodeState}
use pysearch.Cluster.{NodeStatus, ShardCopies, serving_order, replication_factor}
use pysearch.Cluster.Coordinator.{
  Coordinator, run_all, gather, index_stats_from_any_copy, any_copy_ready,
}

module _ (fl : Float) where
  -- ShardIndexStats
  pub record ShardIndexStats : Type 0 where
    pub shard_id : ℕ
    pub document_count : ℕ
    pub unique_term_count : ℕ
    pub average_document_length : fl.F

  -- ClusterStats
  pub record ClusterStats : Type 0 where
    pub document_count : ℕ
    pub average_document_length : fl.F
    pub shard_count : ℕ
    pub shards : List ShardIndexStats

  abbrev pub shard_figures : ℕ → List (IndexStats fl) → List ShardIndexStats
  shard_figures shard_id [] = []
  shard_figures shard_id (stats ∷ per_shard) =
      record {
        shard_id = shard_id;
        document_count = stats.document_count;
        unique_term_count = stats.unique_term_count;
        average_document_length = stats.average_document_length;
      }
      ∷ shard_figures (shard_id + 1) per_shard

  -- What `index_stats` makes of the figures of the shards.
  unfoldable pub cluster_figures : ℕ → List (IndexStats fl) → ClusterStats
  cluster_figures shard_count per_shard =
      let documents = sum (map (λ stats. stats.document_count) per_shard) in
      let tokens = sum (map (λ stats. stats.total_token_count) per_shard) in
      record {
        document_count = documents;
        average_document_length =
            if documents == 0 then fl.of_nat 0 else fl.div (fl.of_nat tokens) (fl.of_nat documents);
        shard_count = shard_count;
        shards = shard_figures 0 per_shard;
      }

-- ClusterReadiness
pub record ClusterReadiness : Type 0 where
  pub ready : Bool
  pub ready_shards : List ℕ
  pub unready_shards : List ℕ

-- The loop of `readiness` over the outcomes: what is not True, an exception included, is unready.
abbrev pub sort_outcomes : ℕ → List (Result Bool) → List ℕ × List ℕ
sort_outcomes shard_id [] = ([], [])
sort_outcomes shard_id (ok true ∷ outcomes) =
    let (up, down) = sort_outcomes (shard_id + 1) outcomes in (shard_id ∷ up, down)
sort_outcomes shard_id (ok false ∷ outcomes) =
    let (up, down) = sort_outcomes (shard_id + 1) outcomes in (up, shard_id ∷ down)
sort_outcomes shard_id (err _ ∷ outcomes) =
    let (up, down) = sort_outcomes (shard_id + 1) outcomes in (up, shard_id ∷ down)

abbrev pub is_empty {ℓ} : {A : Type ℓ} → List A → Bool
is_empty [] = true
is_empty (x ∷ xs) = false

abbrev pub readiness_of : List (Result Bool) → ClusterReadiness
readiness_of outcomes =
    let (up, down) = sort_outcomes 0 outcomes in
    record { ready = is_empty down; ready_shards = up; unready_shards = down }

-- CopyStatus; a copy that cannot be reached has no state.
pub record CopyStatus : Type 0 where
  pub role : Str
  pub reachable : Bool
  pub node_id : Str
  pub state : Option NodeState
  pub ready : Bool
  pub generation : Option ℕ

-- ShardHealth
pub record ShardHealth : Type 0 where
  pub shard_id : ℕ
  pub copies : List CopyStatus
  pub search_available : Bool
  pub write_available : Bool

-- ClusterHealth
pub record ClusterHealth : Type 0 where
  pub shard_count : ℕ
  pub replication_factor : ℕ
  pub search_available : Bool
  pub write_available : Bool
  pub shards : List ShardHealth

abbrev pub copy_status : Str → Result NodeStatus → CopyStatus
copy_status role (ok status) = record {
  role = role;
  reachable = true;
  node_id = status.node_id;
  state = some status.state;
  ready = status.ready;
  generation = some status.generation;
}
copy_status role (err _) = record {
  role = role;
  reachable = false;
  node_id = [];
  state = none;
  ready = false;
  generation = none;
}

-- zip(roles, outcomes, strict=True)
abbrev pub copy_statuses : List Str → List (Result NodeStatus) → List CopyStatus
copy_statuses (role ∷ roles) (outcome ∷ outcomes) =
    copy_status role outcome ∷ copy_statuses roles outcomes
copy_statuses _ _ = []

abbrev pub any {ℓ} : {A : Type ℓ} → (A → Bool) → List A → Bool
any p [] = false
any p (x ∷ xs) = p x || any p xs

abbrev pub all {ℓ} : {A : Type ℓ} → (A → Bool) → List A → Bool
all p [] = true
all p (x ∷ xs) = p x && all p xs

-- statuses[0].ready
abbrev pub first_ready : List CopyStatus → Bool
first_ready [] = false
first_ready (status ∷ statuses) = status.ready

module _ {S : Type 0} {fl : Float} {V : Type 0} where
  -- _shard_health
  unfoldable pub shard_health : ShardCopies S fl V → S → ShardHealth × S
  shard_health copies s =
      let (outcomes, s') = run_all (map (λ client. client.node_status) (serving_order copies)) s in
      let statuses =
        copy_statuses (codes "primary" ∷ replicate (length copies.replicas) (codes "replica"))
          outcomes in
      (
        record {
          shard_id = copies.shard_id;
          copies = statuses;
          search_available = any (λ status. status.ready) statuses;
          write_available = first_ready statuses;
        },
        s',
      )

  unfoldable pub health_of_shards : List (ShardCopies S fl V) → S → List ShardHealth × S
  unfolding shard_health
  health_of_shards [] s = ([], s)
  health_of_shards (copies ∷ topology) s =
      let (health, s') = shard_health copies s in
      let (others, s'') = health_of_shards topology s' in (health ∷ others, s'')

  module _ (c : Coordinator S fl V) where
    unfoldable pub cluster_index_stats : Exec S (ClusterStats fl)
    cluster_index_stats = gather (map index_stats_from_any_copy c.topology) >>= λ per_shard.
        pure (cluster_figures fl c.router.shard_count per_shard)

    unfoldable pub readiness : S → ClusterReadiness × S
    readiness s =
        let (outcomes, s') =
          run_all (map (λ copies. any_copy_ready (serving_order copies)) c.topology) s in
        (readiness_of outcomes, s')

    unfoldable pub cluster_status : S → ClusterHealth × S
    cluster_status s =
        let (shards, s') = health_of_shards c.topology s in
        (
          record {
            shard_count = c.router.shard_count;
            replication_factor = replication_factor c.topology;
            search_available = all (λ shard. shard.search_available) shards;
            write_available = all (λ shard. shard.write_available) shards;
            shards = shards;
          },
          s',
        )
