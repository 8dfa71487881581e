-- ===== src/Settings/Starting.antt =====
-- A coordinator whose settings were accepted comes up.
use pysearch.Base.{
  ℕ, ◌+◌, Str, Bool, Option, List, [], ◌∷◌, ◌++◌, ◌≡◌, ap, ◌∙◌, map, length, length-map, concat_map,
  Distinct, All, All-of_map, ltb, ◌==◌, ==_refl, arith, inl, inr, Bool-cases, ok,
}
use pysearch.Float.{Float}
use pysearch.Analysis.{Unicode}
use pysearch.Cluster.{
  ShardClient, ShardCopies, cluster_topology, group_at, assemble, build_topology,
}
use pysearch.Cluster.Routing.{shard_router}
use pysearch.Cluster.Coordinator.{Coordinator, QueryEmbedder, new_coordinator}
use pysearch.Cluster.Ownership.{Starts}
use pysearch.Settings.{
  coordinator, Settings, shard_addresses, replica_addresses, first_group, configured_factor,
  check_topology, make_settings, start_coordinator,
}
use pysearch.Settings.Accepted.{settings_passed, no_groups, Placed, check_coordinator-Placed}
use pysearch.Settings.Assembled.{
  copies_at, check_positions-assemble, length-assemble, group_sizes, All-assemble,
  assemble-copies_at,
}

module _ {S : Type 0} {fl : Float} {V : Type 0} where
  module _ (is_space : ℕ → Bool) (client_of : Str → ShardClient S fl V) (settings : Settings)
      (v : Placed settings.shard_count
        (shard_addresses is_space settings)
        (replica_addresses is_space settings)) where
    abbrev primaries : List (ShardClient S fl V)
    primaries = map client_of (shard_addresses is_space settings)

    abbrev replicas : List (List (ShardClient S fl V))
    replicas = map (map client_of) (replica_addresses is_space settings)

    abbrev topology : List (ShardCopies S fl V)
    topology = assemble replicas 0 primaries

    length-topology : length topology ≡ settings.shard_count
    length-topology = length-assemble replicas 0 primaries ∙ length-map client_of _ ∙ v.count

    abbrev factor : ℕ
    factor = length (first_group (replica_addresses is_space settings))

    even_groups : All (λ g. length g ≡ factor) replicas
    even_groups =
        All-of_map (λ g. length g ≡ factor) (map client_of) _
          (All-lengths (replica_addresses is_space settings) v.even)
      where
        All-lengths :
            (groups : List (List Str))
            → All (λ g. length g ≡ factor) groups
            → All (λ g. length (map client_of g) ≡ factor) groups
        All-lengths [] h = tt
        All-lengths (group ∷ groups) h = (length-map client_of group ∙ h.0, All-lengths groups h.1)

    built : build_topology primaries replicas ≡ ok topology
    unfolding build_topology cluster_topology
    built = elim (Bool-cases (length (replica_addresses is_space settings) == 0)) [
      | inl e ↦ rw (length-map, e, check_positions-assemble replicas 0 primaries)
      | inr e ↦ rw (
        length-map,
        e,
        v.one_each e,
        length-map client_of (shard_addresses is_space settings),
        v.count,
        ==_refl,
        check_positions-assemble replicas 0 primaries,
      )
    ]

    factors :
        All (λ copies. length copies.replicas + 1 ≡ configured_factor is_space settings) topology
    factors = All-assemble factor replicas 0 primaries λ i below.
        group_sizes factor settings.shard_count replicas even_groups
          (λ some. length-map (map client_of) _ ∙ v.one_each (rw length-map at some))
          (λ e. no_groups (replica_addresses is_space settings) (rw length-map at e)) i
          (omega (arith, below, v.count, length-map client_of (shard_addresses is_space settings)))

module _ {S : Type 0} {fl : Float} {V : Type 0} (is_space : ℕ → Bool)
    (client_of : Str → ShardClient S fl V) (digest : Str → ℕ) (unicode : Unicode)
    (embedder : Option (QueryEmbedder V)) where
  -- A coordinator whose settings were accepted comes up from them. Its router has the configured
  -- number of shards, and its topology is one that was accepted. Its shards are, in their order,
  -- those that the lists of addresses describe: each has the client of its primary's address, and
  -- the clients of the addresses in its own group of replicas, if there are groups. Every shard
  -- has as many copies as the settings say, and no address occurs twice in the lists.
  pub start_coordinator-Starts :
      (settings : Settings)
      → settings.node_role ≡ coordinator
      → make_settings is_space settings ≡ ok settings
      → (c : Coordinator S fl V) × (start_coordinator is_space client_of digest unicode embedder
            settings
          ≡ ok c)
        × Starts digest unicode settings.shard_count c.topology embedder c
        × (c.topology
            ≡ copies_at client_of 0
                (shard_addresses is_space settings)
                (replica_addresses is_space settings))
        × All
            (λ copies. length copies.replicas + 1 ≡ configured_factor is_space settings)
            c.topology
        × Distinct (
            shard_addresses is_space settings
            ++ concat_map (λ g. g) (replica_addresses is_space settings))
  unfolding make_settings start_coordinator shard_router new_coordinator cluster_topology
  start_coordinator-Starts settings role accepted =
      let (enough, checked) =
        settings_passed (ltb settings.shard_count 1)
          (check_topology is_space settings.node_role settings) settings accepted in
      let v = check_coordinator-Placed is_space settings (rw role at checked) in
      let shards = topology is_space client_of settings v in
      let count = length-topology is_space client_of settings v in
      let c : Coordinator S fl V = record {
        digest = digest;
        unicode = unicode;
        router = record { shard_count = settings.shard_count };
        topology = shards;
        embedder = embedder;
      } in
      (
        c,
        rw (built is_space client_of settings v, enough, count, ==_refl),
        record {
          router = record { shard_count = settings.shard_count };
          routes = rw enough;
          placed = rw (
              check_positions-assemble (replicas is_space client_of settings v) 0
                (primaries is_space client_of settings v));
          built = rw (count, ==_refl);
        },
        assemble-copies_at client_of (replicas is_space client_of settings v) 0
            (shard_addresses is_space settings) (replica_addresses is_space settings)
            (λ i. ap (group_at (replicas is_space client_of settings v)) (omega arith)),
        factors is_space client_of settings v,
        v.apart,
      )
