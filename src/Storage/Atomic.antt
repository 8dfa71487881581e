-- ===== src/Storage/Atomic.antt =====
-- A storage call commits as a whole, or raises StorageError and leaves the corpus alone.
use pysearch.Base.{
  ℕ, Str, Dict, Bool, true, false, not, List, [], ◌∷◌, ◌≡◌, refl, ap, ◌⊎◌, inl, inr, member, put,
  remove, keys, map, sorted, Distinct, contains, Bool-cases, Result, ok, err, Exec, storage_error,
}
use pysearch.Document.{Document}
use pysearch.Storage.{
  Store, attempt_with, attempt, store_put, store_delete, store_replace_all, store_generation,
  store_documents, rows_of, has_duplicate, document_of, row_le,
}

-- The same corpus at the same generation.
abbrev pub SameCorpus : Store → Store → Type 0
SameCorpus s t = (s.rows ≡ t.rows) × (s.generation ≡ t.generation)

-- The two outcomes of a transaction from `s`: it fails and changes nothing, or it returns `a` with
-- the given rows and generation.
abbrev pub Transaction : {A : Type 0} → Exec Store A → Store → A → Dict Str → ℕ → Type 0
Transaction m s a rows generation =
    ((s' : Store) × (m s ≡ (err storage_error, s')) × SameCorpus s' s)
    ⊎ ((s' : Store) × (m s ≡ (ok a, s')) × (s'.rows ≡ rows) × (s'.generation ≡ generation))

abbrev Attempted : (Store → Result (Unit {0}) × Store) → Store → Type 0
Attempted m s =
    ((s' : Store) × (m s ≡ (err storage_error, s')) × SameCorpus s' s)
    ⊎ ((s' : Store) × (m s ≡ (ok tt, s')) × SameCorpus s' s)

attempt_with_cases : (faults : List Bool) (s : Store) → Attempted (attempt_with faults) s
unfolding attempt_with
attempt_with_cases [] s = inr (s, refl, (refl, refl))
attempt_with_cases (true ∷ later) s = inl (record s { faults = later }, refl, (refl, refl))
attempt_with_cases (false ∷ later) s = inr (record s { faults = later }, refl, (refl, refl))

attempt_cases : (s : Store) → Attempted attempt s
unfolding attempt
attempt_cases s = attempt_with_cases s.faults s

abbrev written : Store → Dict Str → ℕ → Store
written s' rows generation = record s' { rows = rows; generation = generation }

Distinct-of : (ks : List Str) → has_duplicate ks ≡ false → Distinct ks
unfolding has_duplicate
Distinct-of [] h = tt
Distinct-of (k ∷ ks) h = elim (Bool-cases (contains k ks)) [
  | inl e ↦ cc
  | inr e ↦ (e, Distinct-of ks (rw e at h))
]

module _ (s : Store) where
  pub store_put_cases :
      (x : Document) (generation : ℕ)
      → Transaction
          (store_put x generation)
          s
          (not (member x.document_id s.rows))
          (put x.document_id x.text s.rows)
          generation
  unfolding store_put
  store_put_cases x generation = elim (attempt_cases s) [
    | inl (s', e, same) ↦ inl (s', rw e, same)
    | inr (s', e, same) ↦ inr (
      written s' (put x.document_id x.text s.rows) generation,
      rw e (
          ap
            (λ rows. (
              ok (not (member x.document_id rows)),
              written s' (put x.document_id x.text rows) generation,
            ))
            same.0),
      refl,
      refl,
    )
  ]

  pub store_delete_cases :
      (d : Str) (generation : ℕ)
      → Transaction (store_delete d generation) s (member d s.rows) (remove d s.rows) generation
  unfolding store_delete
  store_delete_cases d generation = elim (attempt_cases s) [
    | inl (s', e, same) ↦ inl (s', rw e, same)
    | inr (s', e, same) ↦ inr (
      written s' (remove d s.rows) generation,
      rw e (ap (λ rows. (ok (member d rows), written s' (remove d rows) generation)) same.0),
      refl,
      refl,
    )
  ]

  pub store_replace_all_cases :
      (documents : List Document) (generation : ℕ)
      → ((s' : Store) × (store_replace_all documents generation s ≡ (err storage_error, s'))
          × SameCorpus s' s)
        ⊎ ((s' : Store) × (store_replace_all documents generation s ≡ (ok tt, s'))
            × (s'.rows ≡ rows_of documents)
            × (s'.generation ≡ generation)
            × Distinct (keys s'.rows))
  unfolding store_replace_all
  store_replace_all_cases documents generation = elim (attempt_cases s) [
    | inl (s', e, same) ↦ inl (s', rw e, same)
    | inr (s', e, same) ↦ elim (Bool-cases (has_duplicate (keys (rows_of documents)))) [
      | inl twice ↦ inl (s', rw (e, twice), same)
      | inr once ↦ inr (
        written s' (rows_of documents) generation,
        rw (e, once),
        refl,
        refl,
        Distinct-of (keys (rows_of documents)) once,
      )
    ]
  ]

  pub store_generation_cases : Transaction store_generation s s.generation s.rows s.generation
  unfolding store_generation
  store_generation_cases = elim (attempt_cases s) [
    | inl (s', e, same) ↦ inl (s', rw e, same)
    | inr (s', e, same) ↦ inr (s', rw e (ap (λ g. (ok g, s')) same.1), same.0, same.1)
  ]

  pub store_documents_cases :
      Transaction store_documents s (map document_of (sorted row_le s.rows)) s.rows s.generation
  unfolding store_documents
  store_documents_cases = elim (attempt_cases s) [
    | inl (s', e, same) ↦ inl (s', rw e, same)
    | inr (s', e, same) ↦ inr (
      s',
      rw e (ap (λ rows. (ok (map document_of (sorted row_le rows)), s')) same.0),
      same.0,
      same.1,
    )
  ]
