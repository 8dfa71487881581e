-- ===== src/Cluster/Replicas.antt =====
-- What an acknowledged write says of the replicas.
use pysearch.Base.{
  ℕ, ◌+◌, Bool, not, none, List, [], ◌∷◌, ◌≡◌, refl, ap, sym, subst, ◌∙◌, map, All, member, put,
  inl, inr, Error, Result, Result-cases, ok, err, Exec, replication_error,
}
use pysearch.Float.{Float}
use pysearch.Document.{Document}
use pysearch.VectorIndex.{Vectors}
use pysearch.Engine.{
  Config, Engine, Outcome, applied, duplicate, gap, index_document, apply_replicated_put,
}
use pysearch.Engine.Effects.{Healthy, Stores, index_document-Stores, apply_replicated_put-Stores}
use pysearch.Cluster.Replication.{
  ReplicationTarget, replicate_all, replicated_after, served, replica_node, write_document,
}

module _ {ℓ} {T : Type ℓ} (apply : Exec T (Unit {0})) where
  -- The only error of the loop is ReplicationError, and where it ends without one, every replica
  -- applied the mutation.
  replicate_all-All :
      (targets : List T)
      → ((replicate_all apply targets).0 ≡ ok tt
          → All (λ t. (apply t).0 ≡ ok tt) targets
            × ((replicate_all apply targets).1 ≡ map (λ t. (apply t).1) targets))
        × ((error : Error)
            → (replicate_all apply targets).0 ≡ err error
            → error ≡ replication_error)
  unfolding replicate_all
  replicate_all-All [] = (λ h. (tt, refl), λ error h. cc)
  replicate_all-All (t ∷ targets) = elim (Result-cases (apply t).0) [
    | inr (error, e) ↦ rw (replicate_all, e) (λ h. cc, λ other h. cc)
    | inl (u, e) ↦
        let rest = replicate_all-All targets in
        rw (replicate_all, e)
          (λ h. ((refl, (rest.0 h).0), ap (λ l. (apply t).1 ∷ l) (rest.0 h).1), rest.1)
  ]

  replicate_all_quiet :
      (targets : List T)
      → All (λ t. (apply t).0 ≡ ok tt) targets
      → replicate_all apply targets ≡ (ok tt, map (λ t. (apply t).1) targets)
  unfolding replicate_all
  replicate_all_quiet [] h = refl
  replicate_all_quiet (t ∷ targets) h = rw (replicate_all, h.0, replicate_all_quiet targets h.1)

module _ {fl : Float} {vs : Vectors fl} (cfg : Config vs) where
  module _ {T : Type 0} (target : ReplicationTarget T) where
    acknowledged_after :
        {A : Type 0} (apply : ℕ → Exec T (Unit {0})) (r : Result A) (e : Engine vs)
        (targets : List T) (a : A)
        → (replicated_after cfg target apply (r, e) targets).0 ≡ ok a
        → (r ≡ ok a)
          × ((replicated_after cfg target apply (r, e) targets).1.0 ≡ e)
          × All (λ t. (apply e.generation t).0 ≡ ok tt) targets
          × ((replicated_after cfg target apply (r, e) targets).1.1
              ≡ map (λ t. (apply e.generation t).1) targets)
    unfolding replicated_after
    acknowledged_after apply (err error) e targets a h = cc
    acknowledged_after apply (ok b) e targets a h =
        elim (Result-cases (replicate_all (apply e.generation) targets).0) [
          | inr (error, failed) ↦ let raised = rw failed at h in absurd cc
          | inl (u, done) ↦
              let applied = (replicate_all-All (apply e.generation) targets).0 done in
              let same : ok b ≡ ok a = rw done at h in rw done (same, refl, applied.0, applied.1)
        ]

    pub replicated_quiet :
        {A : Type 0} (apply : ℕ → Exec T (Unit {0})) (r : Result A) (e : Engine vs)
        (targets : List T) (a : A)
        → r ≡ ok a
        → All (λ t. (apply e.generation t).0 ≡ ok tt) targets
        → replicated_after cfg target apply (r, e) targets
          ≡ (ok a, (e, map (λ t. (apply e.generation t).1) targets))
    unfolding replicated_after
    replicated_quiet apply (err error) e targets a h all = cc
    replicated_quiet apply (ok b) e targets a h all =
        rw (replicate_all_quiet (apply e.generation) targets all)
          (ap (λ r. (r, (e, map (λ t. (apply e.generation t).1) targets))) h)

    -- Where a write is acknowledged, the primary has committed it with the same answer, every
    -- replica has applied it at the generation of the primary, and the state of each replica is
    -- what applying it made.
    pub write_document-acknowledged :
        (x : Document) (e : Engine vs) (targets : List T) (created : Bool)
        → let (r, after) = write_document cfg target x (e, targets) in
          r ≡ ok created
          → let (committed, e') = index_document cfg x e in
            (committed ≡ ok created)
            × (after.0 ≡ e')
            × All (λ t. (target.apply_put x e'.generation t).0 ≡ ok tt) targets
            × (after.1 ≡ map (λ t. (target.apply_put x e'.generation t).1) targets)
    unfolding write_document
    write_document-acknowledged x e targets created h =
        acknowledged_after (λ generation. target.apply_put x generation) (index_document cfg x e).0
          (index_document cfg x e).1 targets created h

  -- A replica that is healthy and holds what the primary holds.
  abbrev pub Agrees : Engine vs → Engine vs → Type 0
  Agrees e t = (t.store.rows ≡ e.store.rows) × (t.generation ≡ e.generation) × Healthy cfg t

  served_applied : (p : Result Outcome × Engine vs) → p.0 ≡ ok applied → served cfg p ≡ (ok tt, p.1)
  served_applied (ok applied, e) h = refl
  served_applied (ok duplicate, e) h = cc
  served_applied (ok gap, e) h = cc
  served_applied (err error, e) h = cc

  -- A replica after the write.
  abbrev Follows : Document → Engine vs → ℕ → Engine vs → Type 0
  Follows x e generation t =
      let (r, t') = (replica_node cfg).apply_put x generation t in
      (r ≡ ok tt)
      × (t'.store.rows ≡ put x.document_id x.text e.store.rows)
      × (t'.generation ≡ generation)
      × Healthy cfg t'

  module _ (disabled : cfg.embedder ≡ none) (x : Document) (e : Engine vs) where
    next-Follows : (t : Engine vs) → Agrees e t → Follows x e (e.generation + 1) t
    next-Follows t (rows, generation, healthy) =
        let (done, (kept, counted, still)) = apply_replicated_put-Stores cfg disabled t healthy x in
        subst (λ g. Follows x e g t) (ap (λ n. n + 1) generation)
          (rw (served_applied (apply_replicated_put cfg x (t.generation + 1) t) done)
            (refl, kept ∙ ap (put x.document_id x.text) rows, counted, still))

    next-Agrees :
        (e' : Engine vs) (targets : List (Engine vs))
        → e'.store.rows ≡ put x.document_id x.text e.store.rows
        → e'.generation ≡ e.generation + 1
        → All (Agrees e) targets
        → All (λ t. ((replica_node cfg).apply_put x (e.generation + 1) t).0 ≡ ok tt) targets
          × All
              (Agrees e')
              (map (λ t. ((replica_node cfg).apply_put x (e.generation + 1) t).1) targets)
    next-Agrees e' [] rows generation h = (tt, tt)
    next-Agrees e' (t ∷ targets) rows generation h =
        let (done, kept, counted, still) = next-Follows t h.0 in
        let rest = next-Agrees e' targets rows generation h.1 in
        ((done, rest.0), ((kept ∙ sym rows, counted ∙ sym generation, still), rest.1))

    -- Without an embedding model, where the primary and its replicas are healthy and agree on
    -- rows and generation, a write is acknowledged with whether the document is new. Afterwards
    -- the primary has stored it and counted one generation, and all of the copies are healthy and
    -- agree.
    pub write_document-Agrees :
        (targets : List (Engine vs))
        → Healthy cfg e
        → All (Agrees e) targets
        → let (r, after) = write_document cfg (replica_node cfg) x (e, targets) in
          (r ≡ ok (not (member x.document_id e.store.rows)))
          × Stores cfg e after.0 (put x.document_id x.text e.store.rows) (e.generation + 1)
          × All (Agrees after.0) after.1
    unfolding write_document
    write_document-Agrees targets healthy h =
        let e' = (index_document cfg x e).1 in
        let (created, (rows, generation, still)) = index_document-Stores cfg disabled e healthy x in
        let follow = next-Agrees e' targets rows generation h in
        let done =
          replicated_quiet (replica_node cfg) (λ g. (replica_node cfg).apply_put x g)
            (index_document cfg x e).0 e' targets (not (member x.document_id e.store.rows)) created
            (subst (λ g. All (λ t. ((replica_node cfg).apply_put x g t).0 ≡ ok tt) targets)
              (sym generation) follow.0) in
        rw done (
          refl,
          (rows, generation, still),
          subst (λ g. All (Agrees e') (map (λ t. ((replica_node cfg).apply_put x g t).1) targets))
              (sym generation) follow.1,
        )
