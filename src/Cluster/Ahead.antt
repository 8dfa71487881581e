-- ===== src/Cluster/Ahead.antt =====
-- No replica is ever ahead of its primary, whatever fails.
use pysearch.Base.{
  ℕ, ◌≤◌, Str, List, [], ◌∷◌, ◌≡◌, refl, All, arith, inl, inr, Result, Result-cases, ok, err, Exec,
}
use pysearch.Float.{Float}
use pysearch.Document.{Document}
use pysearch.VectorIndex.{Vectors}
use pysearch.Engine.{
  Config, Engine, Outcome, applied, duplicate, gap, index_document, delete_document,
}
use pysearch.Engine.Keeps.{
  Keeps, index_document-Keeps, delete_document-Keeps, apply_replicated_put-Keeps,
  apply_replicated_delete-Keeps,
}
use pysearch.Cluster.Replication.{
  Group, replicate_all, replicated_after, served, replica_node, write_document, erase_document,
}

replicate_all-Keeps {ℓ κ} :
    {T : Type ℓ} (P : T → Type κ) (apply : Exec T (Unit {0})) (targets : List T)
    → Keeps P apply
    → All P targets
    → All P (replicate_all apply targets).1
unfolding replicate_all
replicate_all-Keeps P apply [] h all = tt
replicate_all-Keeps P apply (t ∷ targets) h all = elim (Result-cases (apply t).0) [
  | inl (u, e) ↦ rw (replicate_all, e) (h t all.0, replicate_all-Keeps P apply targets h all.1)
  | inr (error, e) ↦ rw (replicate_all, e) (h t all.0, all.1)
]

module _ {fl : Float} {vs : Vectors fl} (cfg : Config vs) where
  -- No replica has a generation beyond the primary's.
  abbrev pub NotAhead : Group cfg (replica_node cfg) → Type 0
  NotAhead (e, targets) = All (λ t. t.generation ≤ e.generation) targets

  rises :
      (e e' : Engine vs) (targets : List (Engine vs))
      → e.generation ≤ e'.generation
      → NotAhead (e, targets)
      → NotAhead (e', targets)
  rises e e' [] h all = tt
  rises e e' (t ∷ targets) h all = (omega (arith, h, all.0), rises e e' targets h all.1)

  served_generation : (p : Result Outcome × Engine vs) → (served cfg p).1 ≡ p.1
  served_generation (ok applied, e) = refl
  served_generation (ok duplicate, e) = refl
  served_generation (ok gap, e) = refl
  served_generation (err error, e) = refl

  replicated_after-NotAhead :
      {A : Type 0} (apply : ℕ → Exec (Engine vs) (Unit {0})) (r : Result A) (e : Engine vs)
      (targets : List (Engine vs))
      → ((n : ℕ) → Keeps (λ t. t.generation ≤ n) (apply n))
      → NotAhead (e, targets)
      → NotAhead (replicated_after cfg (replica_node cfg) apply (r, e) targets).1
  unfolding replicated_after
  replicated_after-NotAhead apply (err error) e targets h all = all
  replicated_after-NotAhead apply (ok a) e targets h all =
      let kept =
        replicate_all-Keeps (λ t. t.generation ≤ e.generation) (apply e.generation) targets
          (h e.generation) all in
      elim (Result-cases (replicate_all (apply e.generation) targets).0) [
        | inl (u, done) ↦ rw done kept
        | inr (error, failed) ↦ rw failed kept
      ]

  -- Where no replica has a generation beyond its primary's, none has after a write or a deletion
  -- either, acknowledged or not, and whatever failed at the primary or at a replica.
  pub write_document-NotAhead :
      (x : Document) (d : Str) (e : Engine vs) (targets : List (Engine vs))
      → NotAhead (e, targets)
      → NotAhead (write_document cfg (replica_node cfg) x (e, targets)).1
        × NotAhead (erase_document cfg (replica_node cfg) d (e, targets)).1
  unfolding write_document erase_document
  write_document-NotAhead x d e targets h = (
    replicated_after-NotAhead (λ n. (replica_node cfg).apply_put x n) _ _ targets
        (λ n t below.
          rw served_generation
            (apply_replicated_put-Keeps cfg (λ m. m ≤ n) x n (omega arith) t below))
        (rises e (index_document cfg x e).1 targets
          (index_document-Keeps cfg (λ m. e.generation ≤ m) x e (omega arith) (omega arith)) h),
    replicated_after-NotAhead (λ n. (replica_node cfg).apply_delete d n) _ _ targets
        (λ n t below.
          rw served_generation
            (apply_replicated_delete-Keeps cfg (λ m. m ≤ n) d n (omega arith) t below))
        (rises e (delete_document cfg d e).1 targets
          (delete_document-Keeps cfg (λ m. e.generation ≤ m) d e (omega arith) (omega arith)) h),
  )
