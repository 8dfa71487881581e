-- ===== src/Settings/Assembled.antt =====
-- The topology that build_topology of app/cluster/topology.py assembles from clients.
use mathlib.Core.Path.{ap₂}
use pysearch.Base.{
  ℕ, zero, suc, ◌+◌, ◌<◌, Str, true, false, List, [], ◌∷◌, ◌≡◌, subst, refl, ap, sym, map, length,
  All, ◌==◌, ==_refl, arith, ok,
}
use pysearch.Float.{Float}
use pysearch.Cluster.{ShardClient, ShardCopies, check_positions, group_at, assemble}

module _ {S : Type 0} {fl : Float} {V : Type 0} where
  pub check_positions-assemble :
      (replicas : List (List (ShardClient S fl V))) (position : ℕ)
      (primaries : List (ShardClient S fl V))
      → check_positions position (assemble replicas position primaries) ≡ ok tt
  unfolding check_positions
  check_positions-assemble replicas position [] = refl
  check_positions-assemble replicas position (client ∷ primaries) =
      rw (==_refl position, check_positions-assemble replicas (position + 1) primaries)

  pub length-assemble :
      (replicas : List (List (ShardClient S fl V))) (position : ℕ)
      (primaries : List (ShardClient S fl V))
      → length (assemble replicas position primaries) ≡ length primaries
  length-assemble replicas position [] = refl
  length-assemble replicas position (client ∷ primaries) =
      ap suc (length-assemble replicas (position + 1) primaries)

  length-group_at :
      (n : ℕ) (groups : List (List (ShardClient S fl V))) (i : ℕ)
      → All (λ g. length g ≡ n) groups
      → i < length groups
      → length (group_at groups i) ≡ n
  length-group_at n [] i even h = absurd (omega arith)
  length-group_at n (group ∷ groups) zero even h = even.0
  length-group_at n (group ∷ groups) (suc i) even h =
      length-group_at n groups i even.1 (omega arith)

  pub group_sizes :
      (n count : ℕ) (groups : List (List (ShardClient S fl V)))
      → All (λ g. length g ≡ n) groups
      → ((length groups == 0) ≡ false → length groups ≡ count)
      → ((length groups == 0) ≡ true → n ≡ 0)
      → (i : ℕ) → i < count
      → length (group_at groups i) ≡ n
  group_sizes n count [] even one_each none_at_all i h = sym (none_at_all refl)
  group_sizes n count (group ∷ groups) even one_each none_at_all i h =
      length-group_at n (group ∷ groups) i even (omega (arith, h, one_each (ground arith)))

  -- Every shard of an assembled topology has as many replicas as there are in its group.
  pub All-assemble :
      (n : ℕ) (replicas : List (List (ShardClient S fl V))) (position : ℕ)
      (primaries : List (ShardClient S fl V))
      → ((i : ℕ) → i < position + length primaries → length (group_at replicas i) ≡ n)
      → All (λ copies. length copies.replicas + 1 ≡ n + 1) (assemble replicas position primaries)
  All-assemble n replicas position [] h = tt
  All-assemble n replicas position (client ∷ primaries) h = (
    ap (λ k. k + 1) (h position (omega arith)),
    All-assemble n replicas (position + 1) primaries (λ i below. h i (omega (arith, below))),
  )

  -- The copies that lists of addresses describe, read in step: a shard at each primary's address
  -- with its number, and with the replicas at the addresses of its own group, if there are groups.
  abbrev pub copies_at :
      (Str → ShardClient S fl V) → ℕ → List Str → List (List Str) → List (ShardCopies S fl V)
  copies_at client_of shard_id [] groups = []
  copies_at client_of shard_id (address ∷ addresses) [] =
      record { shard_id = shard_id; primary = client_of address; replicas = [] }
      ∷ copies_at client_of (shard_id + 1) addresses []
  copies_at client_of shard_id (address ∷ addresses) (group ∷ groups) =
      record { shard_id = shard_id; primary = client_of address; replicas = map client_of group }
      ∷ copies_at client_of (shard_id + 1) addresses groups

  -- The groups that are left after some shards.
  abbrev Follow : List (List (ShardClient S fl V)) → ℕ → List (List (ShardClient S fl V)) → Type 0
  Follow all position rest = (i : ℕ) → group_at all (i + position) ≡ group_at rest i

  Follow-next :
      (all rest : List (List (ShardClient S fl V))) (group : List (ShardClient S fl V))
      (position : ℕ)
      → Follow all position (group ∷ rest)
      → Follow all (position + 1) rest
  Follow-next all rest group position h i =
      subst (λ k. group_at all k ≡ group_at rest i) (omega arith) (h (suc i))

  Follow-here :
      (all rest : List (List (ShardClient S fl V))) (position : ℕ)
      → Follow all position rest
      → group_at all position ≡ group_at rest 0
  Follow-here all rest position h =
      subst (λ k. group_at all k ≡ group_at rest 0) (omega arith) (h 0)

  pub assemble-copies_at :
      (client_of : Str → ShardClient S fl V) (all : List (List (ShardClient S fl V))) (position : ℕ)
      (addresses : List Str) (groups : List (List Str))
      → Follow all position (map (map client_of) groups)
      → assemble all position (map client_of addresses)
        ≡ copies_at client_of position addresses groups
  assemble-copies_at client_of all position [] groups h = refl
  assemble-copies_at client_of all position (address ∷ addresses) [] h =
      ap₂
        (λ replicas others.
          record { shard_id = position; primary = client_of address; replicas = replicas } ∷ others)
        (Follow-here all [] position h)
        (assemble-copies_at client_of all (position + 1) addresses []
          (λ i. subst (λ k. group_at all k ≡ []) (omega arith) (h (suc i))))
  assemble-copies_at client_of all position (address ∷ addresses) (group ∷ groups) h =
      ap₂
        (λ replicas others.
          record { shard_id = position; primary = client_of address; replicas = replicas } ∷ others)
        (Follow-here all (map (map client_of) (group ∷ groups)) position h)
        (assemble-copies_at client_of all (position + 1) addresses groups
          (Follow-next all (map (map client_of) groups) (map client_of group) position h))
