-- ===== src/Cluster/Failover.antt =====
-- A read of a shard is answered by the first of its copies that does not refuse.
use pysearch.Base.{
  ℕ, true, false, List, [], ◌∷◌, ◌++◌, ◌≡◌, ap, ◌∙◌, Error, is_cluster_error, ok, err, Exec,
  copies_exhausted,
}
use pysearch.Float.{Float}
use pysearch.Cluster.{ShardClient}
use pysearch.Cluster.Coordinator.{from_any_copy}

module _ {S : Type 0} {fl : Float} {V : Type 0} {A : Type 0}
    (ask : ShardClient S fl V → Exec S A) where
  -- One copy after the other raises a ClusterError; the nodes go from one state to another.
  abbrev pub AllRefuse : List (ShardClient S fl V) → S → S → Type 0
  AllRefuse [] s s' = s ≡ s'
  AllRefuse (client ∷ clients) s s' =
      ((error : Error) × ((ask client s).0 ≡ err error) × (is_cluster_error error ≡ true))
      × AllRefuse clients (ask client s).1 s'

  pub skip_refusing :
      (shard_id : ℕ) (before rest : List (ShardClient S fl V)) (s s' : S)
      → AllRefuse before s s'
      → from_any_copy ask shard_id (before ++ rest) s ≡ from_any_copy ask shard_id rest s'
  unfolding from_any_copy
  skip_refusing shard_id [] rest s s' h = ap (from_any_copy ask shard_id rest) h
  skip_refusing shard_id (client ∷ before) rest s s' ((error, refused, known), h) =
      rw (from_any_copy, refused, known) (skip_refusing shard_id before rest (ask client s).1 s' h)

  exhausted :
      (shard_id : ℕ) (clients : List (ShardClient S fl V)) (s s' : S)
      → AllRefuse clients s s'
      → from_any_copy ask shard_id clients s ≡ (err (copies_exhausted shard_id), s')
  unfolding from_any_copy
  exhausted shard_id [] s s' h = ap (λ t. (err (copies_exhausted shard_id), t)) h
  exhausted shard_id (client ∷ clients) s s' ((error, refused, known), h) =
      rw (from_any_copy, refused, known) (exhausted shard_id clients (ask client s).1 s' h)

  -- Where the copies before one each raise a ClusterError, that copy decides: its answer is the
  -- answer, and an error of it that is not a ClusterError is raised. Where all copies raise a
  -- ClusterError, the shard is reported as exhausted.
  pub from_any_copy-first :
      (shard_id : ℕ) (before : List (ShardClient S fl V)) (s s' : S)
      → AllRefuse before s s'
      → (from_any_copy ask shard_id before s ≡ (err (copies_exhausted shard_id), s'))
        × ((client : ShardClient S fl V) (after : List (ShardClient S fl V)) (s'' : S)
            → ((answer : A)
                → ask client s' ≡ (ok answer, s'')
                → from_any_copy ask shard_id (before ++ client ∷ after) s ≡ (ok answer, s''))
              × ((error : Error)
                  → ask client s' ≡ (err error, s'')
                  → is_cluster_error error ≡ false
                  → from_any_copy ask shard_id (before ++ client ∷ after) s ≡ (err error, s'')))
  unfolding from_any_copy
  from_any_copy-first shard_id before s s' h = (
    exhausted shard_id before s s' h,
    λ client after s''. (
      λ answer e.
          skip_refusing shard_id before (client ∷ after) s s' h
          ∙ rw (from_any_copy, e) (ap (λ r. (ok answer, r.1)) e),
      λ error e other.
          skip_refusing shard_id before (client ∷ after) s s' h
          ∙ rw (from_any_copy, e, other) (ap (λ r. (err error, r.1)) e),
    ),
  )
