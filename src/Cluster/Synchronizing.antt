-- ===== src/Cluster/Synchronizing.antt =====
-- A replica serves after its check only what its primary vouched for.
use pysearch.Base.{
  ℕ, true, Option, some, List, ◌≡◌, refl, ap, sym, ◌∙◌, ltb, ◌==◌, ==_iff, ◌⊎◌, inl, inr,
  Bool-cases, Result, ok, err,
}
use pysearch.Float.{Float}
use pysearch.Document.{Document}
use pysearch.VectorIndex.{Vectors}
use pysearch.Storage.{rows_of}
use pysearch.Engine.{Config, Engine, is_ready, ready, recovering}
use pysearch.Engine.Sync.{InSync, IsSound}
use pysearch.Engine.Recovery.{resynchronize-IsSound}
use pysearch.Cluster.Replication.{
  PrimarySource, SyncOutcome, concluded_sync, pull_from, compare_with, synchronize,
}

module _ {fl : Float} {vs : Vectors fl} (cfg : Config vs) where
  -- The two ways to be in step with the primary: the generations are equal and nothing was
  -- touched, or the corpus is the primary's snapshot at its generation.
  abbrev pub InStep : PrimarySource → Engine vs → Engine vs → Type 0
  InStep primary e e' =
      ((primary.generation ≡ ok e'.generation) × (e'.store ≡ e.store))
      ⊎ ((documents : List Document) × (primary.exported ≡ ok (documents, e'.generation))
          × (e'.store.rows ≡ rows_of documents))

  -- What a check leaves: the engine is sound, it serves exactly if the outcome says that it is
  -- synchronized, and then it is in step.
  abbrev pub Checked : PrimarySource → Engine vs → SyncOutcome × Engine vs → Type 0
  Checked primary e r =
      IsSound cfg r.1
      × (r.0.synchronized ≡ is_ready r.1.state)
      × (r.0.synchronized ≡ true → InStep primary e r.1)

  concluded_sync-Checked :
      (primary : PrimarySource) (local : ℕ) (remote : Option ℕ) (documents : List Document)
      (generation : ℕ) (e e' : Engine vs) (r : Result (Unit {0}))
      → primary.exported ≡ ok (documents, generation)
      → (r ≡ ok tt
          → InSync cfg e'
            × (e'.state ≡ ready)
            × (e'.generation ≡ generation)
            × (e'.store.rows ≡ rows_of documents))
      → Checked primary e (concluded_sync cfg local remote generation (r, e'))
  unfolding concluded_sync
  concluded_sync-Checked primary local remote documents generation e e' (err error) exported h =
      (λ serving. cc, refl, λ g. cc)
  concluded_sync-Checked primary local remote documents generation e e' (ok tt) exported h =
      let (y, serving, same, rows) = h refl in
      (
        λ _. y,
        sym (ap is_ready serving),
        λ _. inr (documents, exported ∙ ap (λ g. ok (documents, g)) (sym same), rows),
      )

  pull_from-Checked :
      (primary : PrimarySource) (exported : Result (List Document × ℕ)) (local : ℕ)
      (remote : Option ℕ) (e e1 : Engine vs)
      → primary.exported ≡ exported
      → Checked primary e (pull_from cfg exported local remote e1)
  unfolding pull_from
  pull_from-Checked primary (err error) local remote e e1 h = (λ serving. cc, refl, λ g. cc)
  pull_from-Checked primary (ok (documents, generation)) local remote e e1 h =
      concluded_sync-Checked primary local remote documents generation e _ _ h
        (resynchronize-IsSound cfg documents generation e1).1

  compare_with-Checked :
      (primary : PrimarySource) (answer : Result ℕ) (e : Engine vs)
      → InSync cfg e
      → primary.generation ≡ answer
      → Checked primary e (compare_with cfg primary answer e)
  unfolding compare_with
  compare_with-Checked primary (err error) e y h = (λ serving. cc, refl, λ g. cc)
  compare_with-Checked primary (ok remote) e y h = elim (Bool-cases (e.generation == remote)) [
    | inl same ↦
        let y' : InSync cfg (record e { state = ready }) = record {
          derived = y.derived;
          generation = y.generation;
          keyed = y.keyed;
        } in
        rw same (λ _. y', refl, λ _. inl (h ∙ ap ok (sym ((==_iff _ _).0 same)), refl))
    | inr other ↦ elim (Bool-cases (ltb remote e.generation)) [
      | inl ahead ↦ rw (other, ahead) (λ serving. cc, refl, λ g. cc)
      | inr behind ↦
          rw (other, behind)
            (pull_from-Checked primary primary.exported e.generation (some remote) e _ refl)
    ]
  ]

  -- Let an engine be in sync with its storage. After it has checked itself against its primary,
  -- whatever the primary answers or fails to answer, it is ready exactly if the outcome is that
  -- it is synchronized. If it is ready it is in sync with its storage; and if it is synchronized,
  -- its generation is the primary's and its store untouched, or its rows and generation are those
  -- of the primary's snapshot.
  pub synchronize-Checked :
      (primary : PrimarySource) (e : Engine vs)
      → InSync cfg e
      → Checked primary e (synchronize cfg primary e)
  unfolding synchronize
  synchronize-Checked primary e y =
      compare_with-Checked primary primary.generation (record e { state = recovering })
        (record { derived = y.derived; generation = y.generation; keyed = y.keyed }) refl
