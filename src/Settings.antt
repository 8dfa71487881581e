-- ===== src/Settings.antt =====
-- app/core/config.py: Settings, with the fields that decide what a process is, and the part of
-- app/main.py that starts a coordinator from them. Whether a character is white space is the
-- parameter `is_space`. A shard number below zero, which the check refuses, has no place here.
pub mod Accepted
pub mod Assembled
pub mod Starting
pub mod Nodes
use pysearch.Base.{
  ℕ, ◌+◌, Str, Bool, true, false, not, ◌&&◌, ◌||◌, Option, none, some, List, [], ◌∷◌, ◌++◌, map,
  length, contains, concat_map, if◌then◌else◌, ltb, ◌==◌, Result, ok, and_then, raise_if,
  value_error,
}
use pysearch.Float.{Float}
use pysearch.Analysis.{Unicode}
use pysearch.Document.{is_blank}
use pysearch.Cluster.{ShardClient, build_topology}
use pysearch.Cluster.Routing.{shard_router}
use pysearch.Cluster.Coordinator.{Coordinator, QueryEmbedder, new_coordinator}

pub data NodeRole : Type 0 where
  single shard coordinator : NodeRole

pub data ReplicaRole : Type 0 where
  primary replica : ReplicaRole

pub record Settings : Type 0 where
  pub node_role : NodeRole
  pub shard_id : Option ℕ
  pub shard_count : ℕ
  pub shard_urls : Str
  pub replica_urls : Str
  pub replica_role : Option ReplicaRole
  pub primary_url : Str

-- The first part of a split text, with one more character.
abbrev pub put_first : ℕ → List Str → List Str
put_first c [] = (c ∷ []) ∷ []
put_first c (part ∷ parts) = (c ∷ part) ∷ parts

-- s.split(separator)
abbrev pub split : ℕ → Str → List Str
split separator [] = [] ∷ []
split separator (c ∷ s) =
    let rest = split separator s in if c == separator then [] ∷ rest else put_first c rest

-- groups[0] if groups else ()
abbrev pub first_group : List (List Str) → List Str
first_group [] = []
first_group (group ∷ groups) = group

module _ (is_space : ℕ → Bool) where
  abbrev pub rstrip : Str → Str
  rstrip [] = []
  rstrip (c ∷ s) = let rest = rstrip s in if is_space c && is_blank is_space s then [] else c ∷ rest

  abbrev pub lstrip : Str → Str
  lstrip [] = []
  lstrip (c ∷ s) = let rest = lstrip s in if is_space c then rest else c ∷ s

  -- s.strip()
  abbrev pub strip : Str → Str
  strip s = lstrip (rstrip s)

  -- tuple(url.strip() for url in urls if url.strip())
  abbrev pub stripped : List Str → List Str
  stripped [] = []
  stripped (url ∷ urls) =
      let rest = stripped urls in if is_blank is_space url then rest else strip url ∷ rest

  -- split at `,`
  abbrev pub shard_addresses : Settings → List Str
  shard_addresses settings = stripped (split 44 settings.shard_urls)

  -- split at `;`, and each group at `,`
  abbrev pub replica_addresses : Settings → List (List Str)
  replica_addresses settings =
      if is_blank is_space settings.replica_urls
      then []
      else map (λ group. stripped (split 44 group)) (split 59 settings.replica_urls)

  abbrev pub own_replica_addresses : Settings → List Str
  own_replica_addresses settings = first_group (replica_addresses settings)

  abbrev pub configured_factor : Settings → ℕ
  configured_factor settings = length (first_group (replica_addresses settings)) + 1

-- len(set(xs)) != len(xs)
abbrev pub has_repeats : List Str → Bool
has_repeats [] = false
has_repeats (x ∷ xs) = contains x xs || has_repeats xs

abbrev pub all_of_size : ℕ → List (List Str) → Bool
all_of_size n [] = true
all_of_size n (group ∷ groups) = length group == n && all_of_size n groups

-- The checks of `_check_topology` on the replicas of a coordinator.
abbrev pub check_groups : ℕ → List Str → List (List Str) → Result (Unit {0})
check_groups shard_count addresses [] = ok tt
check_groups shard_count addresses (group ∷ groups) =
    and_then (raise_if (not (length (group ∷ groups) == shard_count)) value_error) λ _.
      and_then (raise_if (not (all_of_size (length group) groups)) value_error)
        λ _. raise_if (has_repeats (addresses ++ concat_map (λ g. g) (group ∷ groups))) value_error

abbrev pub check_shard_id : ℕ → Option ℕ → Result (Unit {0})
check_shard_id shard_count none = raise_if true value_error
check_shard_id shard_count (some shard_id) = raise_if (not (ltb shard_id shard_count)) value_error

module _ (is_space : ℕ → Bool) where
  abbrev pub check_coordinator : Settings → Result (Unit {0})
  check_coordinator settings =
      let addresses = shard_addresses is_space settings in
      and_then (raise_if (length addresses == 0) value_error) λ _.
        and_then (raise_if (not (length addresses == settings.shard_count)) value_error) λ _.
          and_then (raise_if (has_repeats addresses) value_error)
            λ _. check_groups settings.shard_count addresses (replica_addresses is_space settings)

  -- _check_topology
  abbrev pub check_topology : NodeRole → Settings → Result (Unit {0})
  check_topology single settings = ok tt
  check_topology shard settings = check_shard_id settings.shard_count settings.shard_id
  check_topology coordinator settings = check_coordinator settings

  -- Settings(…), with the bound on `shard_count` before the validator
  unfoldable pub make_settings : Settings → Result Settings
  make_settings settings =
      and_then (raise_if (ltb settings.shard_count 1) value_error)
        λ _. and_then (check_topology settings.node_role settings) λ _. ok settings

  -- `_coordinator_lifespan` without a topology from outside: a client for each address, the
  -- topology, the router, and the coordinator.
  module _ {S : Type 0} {fl : Float} {V : Type 0} (client_of : Str → ShardClient S fl V)
      (digest : Str → ℕ) (unicode : Unicode) (embedder : Option (QueryEmbedder V)) where
    unfoldable pub start_coordinator : Settings → Result (Coordinator S fl V)
    start_coordinator settings =
        let primaries = map client_of (shard_addresses is_space settings) in
        let replicas = map (map client_of) (replica_addresses is_space settings) in
        and_then (build_topology primaries replicas) λ topology.
          and_then (shard_router settings.shard_count)
            λ router. new_coordinator digest unicode router topology embedder
