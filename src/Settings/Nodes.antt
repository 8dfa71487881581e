-- ===== src/Settings/Nodes.antt =====
-- app/main.py: how a node that owns documents starts. The store is open already; the peers behind
-- the addresses and the node's name are parameters.
use pysearch.Base.{
  ℕ, Str, Bool, true, false, Option, none, some, [], ◌≡◌, refl, map, keys, Distinct, Result, ok,
  err, codes,
}
use pysearch.Float.{Float}
use pysearch.VectorIndex.{Vectors}
use pysearch.Storage.{Store}
use pysearch.Engine.{Config, Engine, ready, is_ready, new_engine}
use pysearch.Engine.Rebuild.{initialize}
use pysearch.Engine.Sync.{InSync, IsSound}
use pysearch.Engine.Recovery.{initialize-IsSound}
use pysearch.Cluster.{SemanticIdentity}
use pysearch.Cluster.Replication.{PrimarySource, synchronize}
use pysearch.Cluster.Synchronizing.{InStep, synchronize-Checked}
use pysearch.Http.Internal.{Duty, Node, primary_of, replica_of}
use pysearch.Settings.{
  NodeRole, single, shard, coordinator, ReplicaRole, primary, replica, Settings,
  own_replica_addresses,
}

-- settings.replica_role or "single"
abbrev pub role_name : Option ReplicaRole → Str
role_name none = codes "single"
role_name (some primary) = codes "primary"
role_name (some replica) = codes "replica"

-- A shard has a number: the check of the settings requires it.
abbrev pub number_or_zero : Option ℕ → ℕ
number_or_zero none = 0
number_or_zero (some n) = n

-- Whether a node takes the part of a replica: a shard that is not the primary.
abbrev pub is_secondary : NodeRole → Option ReplicaRole → Bool
is_secondary shard (some primary) = false
is_secondary shard _ = true
is_secondary _ _ = false

module _ {fl : Float} (vs : Vectors fl) (T : Type 0) where
  -- The state of an application: an engine alone, or a node of a shard.
  pub data Started : Type 0 where
    alone : Engine vs → Started
    in_shard : Node vs T → Started

module _ {fl : Float} {vs : Vectors fl} {T : Type 0} where
  abbrev pub engine_of : Started vs T → Engine vs
  engine_of (alone e) = e
  engine_of (in_shard node) = node.engine

module _ {fl : Float} {vs : Vectors fl} (cfg : Config vs) where
  -- What a node that has started may serve from.
  pub record MayServe (source : PrimarySource) (secondary : Bool) (e e' : Engine vs) : Type 0 where
    pub sound : IsSound cfg e'
    pub serving : secondary ≡ false → is_ready e'.state ≡ true
    pub checked : secondary ≡ true → is_ready e'.state ≡ true → InStep cfg source e e'

module _ {fl : Float} {vs : Vectors fl} (cfg : Config vs) (is_space : ℕ → Bool) {T : Type 0}
    (target_of : Str → T) (source_of : Str → PrimarySource) (node_name : Str)
    (identity : Option SemanticIdentity) where
  abbrev pub node_of : Settings → Engine vs → Duty T → Node vs T
  node_of settings e duty = record {
    node_id = node_name;
    shard_id = number_or_zero settings.shard_id;
    replica_role = role_name settings.replica_role;
    semantic_identity = identity;
    engine = e;
    duty = duty;
  }

  -- The part of a replica: it checks itself against its primary at once.
  abbrev pub attach_synchronizer : Settings → Engine vs → Node vs T
  attach_synchronizer settings e =
      let source = source_of settings.primary_url in
      node_of settings (synchronize cfg source e).1 (replica_of source)

  -- _attach_replication_role
  abbrev pub attach_replication_role : Option ReplicaRole → Settings → Engine vs → Node vs T
  attach_replication_role (some primary) settings e =
      node_of settings e (primary_of (map target_of (own_replica_addresses is_space settings)))
  attach_replication_role none settings e = attach_synchronizer settings e
  attach_replication_role (some replica) settings e = attach_synchronizer settings e

  abbrev pub take_role : NodeRole → Settings → Engine vs → Started vs T
  take_role shard settings e = in_shard (attach_replication_role settings.replica_role settings e)
  take_role single settings e = alone e
  take_role coordinator settings e = alone e

  abbrev pub start_from : Settings → Result (Unit {0}) × Engine vs → Result (Started vs T)
  start_from settings (err error, e) = err error
  start_from settings (ok _, e) = ok (take_role settings.node_role settings e)

  -- _node_lifespan, up to its yield
  unfoldable pub start_node : Settings → Store → Result (Started vs T)
  start_node settings store = start_from settings (initialize cfg (new_engine cfg store))

  synchronizer-MayServe :
      (source : PrimarySource) (e : Engine vs)
      → InSync cfg e
      → MayServe cfg source true e (synchronize cfg source e).1
  synchronizer-MayServe source e y =
      let (sound, agreed, step) = synchronize-Checked cfg source e y in
      record { sound = sound; serving = λ h. cc; checked = λ h serves. step (rw agreed serves) }

  primary-MayServe :
      (source : PrimarySource) (e : Engine vs)
      → InSync cfg e
      → e.state ≡ ready
      → MayServe cfg source false e e
  primary-MayServe source e y serving = record {
    sound = λ h. y;
    serving = λ h. rw serving;
    checked = λ h. cc;
  }

  attach-MayServe :
      (role : Option ReplicaRole) (settings : Settings) (e : Engine vs)
      → InSync cfg e
      → e.state ≡ ready
      → MayServe cfg
          (source_of settings.primary_url)
          (is_secondary shard role)
          e
          (attach_replication_role role settings e).engine
  attach-MayServe (some primary) settings e y serving = primary-MayServe _ e y serving
  attach-MayServe (some replica) settings e y serving = synchronizer-MayServe _ e y
  attach-MayServe none settings e y serving = synchronizer-MayServe _ e y

  take_role-MayServe :
      (role : NodeRole) (settings : Settings) (e : Engine vs)
      → InSync cfg e
      → e.state ≡ ready
      → MayServe cfg
          (source_of settings.primary_url)
          (is_secondary role settings.replica_role)
          e
          (engine_of (take_role role settings e))
  take_role-MayServe shard settings e y serving =
      attach-MayServe settings.replica_role settings e y serving
  take_role-MayServe single settings e y serving = primary-MayServe _ e y serving
  take_role-MayServe coordinator settings e y serving = primary-MayServe _ e y serving

  start_from-MayServe :
      (settings : Settings) (r : Result (Unit {0})) (e : Engine vs)
      → (r ≡ ok tt → InSync cfg e × (e.state ≡ ready))
      → (started : Started vs T) → start_from settings (r, e) ≡ ok started
      → MayServe cfg
          (source_of settings.primary_url)
          (is_secondary settings.node_role settings.replica_role)
          e
          (engine_of started)
  start_from-MayServe settings (err error) e h started up = cc
  start_from-MayServe settings (ok tt) e h started up =
      let (y, serving) = h refl in
      let same : take_role settings.node_role settings e ≡ started = cc in
      rw (← same) (take_role-MayServe settings.node_role settings e y serving)

  start_from-ok :
      (settings : Settings) (r : Result (Unit {0}) × Engine vs)
      → r.0 ≡ ok tt
      → start_from settings r ≡ ok (take_role settings.node_role settings r.1)
  start_from-ok settings (ok tt, e) h = refl
  start_from-ok settings (err error, e) h = cc

  -- Over an open store whose rows have different identifiers, let an engine start from it. Where
  -- starting the node returns, its engine is in sync with its storage if it is ready; it is ready
  -- if the node is no replica; and if it is a ready replica, its generation is the primary's and
  -- its store untouched since, or its rows and generation are those of the primary's snapshot.
  -- Starting returns where there is no embedding model and the storage answers.
  pub start_node-MayServe :
      (settings : Settings) (store : Store)
      → Distinct (keys store.rows)
      → ((started : Started vs T)
          → start_node settings store ≡ ok started
          → MayServe cfg
              (source_of settings.primary_url)
              (is_secondary settings.node_role settings.replica_role)
              (initialize cfg (new_engine cfg store)).1
              (engine_of started))
        × (cfg.embedder ≡ none
            → store.faults ≡ []
            → (started : Started vs T) × (start_node settings store ≡ ok started))
  unfolding start_node
  start_node-MayServe settings store u =
      let (sound, served, returns) = initialize-IsSound cfg (new_engine cfg store) u (λ h. cc) in
      (
        start_from-MayServe settings _ _ served,
        λ disabled quiet. (
          take_role settings.node_role settings (initialize cfg (new_engine cfg store)).1,
          start_from-ok settings (initialize cfg (new_engine cfg store)) (returns disabled quiet),
        ),
      )
