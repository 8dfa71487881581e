-- ===== src/Engine/Keeps.antt =====
-- What every write keeps true of an engine's generation, whatever fails.
use pysearch.Base.{
  ℕ, ◌+◌, Str, Option, none, some, inl, inr, ltb, leb, Bool-cases, member, Result, Result-cases, ok,
  err, Exec,
}
use pysearch.Float.{Float}
use pysearch.Document.{Document}
use pysearch.VectorIndex.{Vectors}
use pysearch.Index.{add_document, remove_document}
use pysearch.Storage.{store_put, store_delete}
use pysearch.Engine.{
  Config, Engine, Act, Outcome, applied, duplicate, gap, is_ready, tokens_of, embed_document,
  add_to_vectors, add_vector_of, apply_derived, degraded_if_failed, degrade_on_failure,
  drop_document, drop_vector, remove_derived, remove_if_cached, classify_generation, put_replicated,
  delete_replicated, index_document, delete_document, apply_replicated_put, apply_replicated_delete,
}

abbrev pub Keeps {ℓ κ μ} : {S : Type ℓ} {A : Type κ} → (S → Type μ) → Exec S A → Type (ℓ ⊔ μ)
Keeps P m = (s : _) → P s → P (m s).1

module _ {fl : Float} {vs : Vectors fl} (cfg : Config vs) where
  -- A statement on the generation alone.
  module _ (P : ℕ → Type 0) where
    abbrev Within : Engine vs → Type 0
    Within e = P e.generation

    degraded_if_failed-Within :
        (p : Result (Unit {0}) × Engine vs) → Within p.1 → Within (degraded_if_failed cfg p).1
    unfolding degraded_if_failed
    degraded_if_failed-Within (ok _, e) h = h
    degraded_if_failed-Within (err _, e) h = h

    degrade_on_failure-Keeps :
        (m : Act cfg (Unit {0})) → Keeps Within m → Keeps Within (degrade_on_failure cfg m)
    unfolding degrade_on_failure
    degrade_on_failure-Keeps m h e p = degraded_if_failed-Within (m e) (h e p)

    add_vector_of-Keeps : (d : Str) (v : Option vs.V) → Keeps Within (add_vector_of cfg d v)
    unfolding add_vector_of add_to_vectors
    add_vector_of-Keeps d none e h = h
    add_vector_of-Keeps d (some v) e h = h

    apply_derived-Keeps :
        (x : Document) (v : Option vs.V) → Keeps Within (apply_derived cfg x (tokens_of cfg x) v)
    unfolding apply_derived
    apply_derived-Keeps x v e h =
        elim (Result-cases (add_document x.document_id (tokens_of cfg x) e.index).0) [
          | inl (u, added) ↦ rw added (add_vector_of-Keeps x.document_id v _ h)
          | inr (error, failed) ↦ rw failed h
        ]

    remove_derived-Keeps : (d : Str) → Keeps Within (remove_derived cfg d)
    unfolding remove_derived drop_document drop_vector
    remove_derived-Keeps d e h = elim (Bool-cases (member d e.documents)) [
      | inr m ↦ rw m h
      | inl m ↦ elim (Result-cases (remove_document d e.index).0) [
        | inl (u, removed) ↦ rw (m, removed) h
        | inr (error, failed) ↦ rw (m, failed) h
      ]
    ]

    remove_if_cached-Keeps : (d : Str) → Keeps Within (remove_if_cached cfg d)
    unfolding remove_if_cached
    remove_if_cached-Keeps d e h = elim (Bool-cases (member d e.documents)) [
      | inl m ↦ rw m (remove_derived-Keeps d e h)
      | inr m ↦ rw m h
    ]

    classify_generation-Keeps : (generation : ℕ) → Keeps Within (classify_generation cfg generation)
    unfolding classify_generation
    classify_generation-Keeps generation e h = elim (Bool-cases (leb generation e.generation)) [
      | inl old ↦ rw old h
      | inr new ↦ elim (Bool-cases (ltb (e.generation + 1) generation)) [
        | inl missed ↦ rw (new, missed) h
        | inr next ↦ elim (Bool-cases (is_ready e.state)) [
          | inl serving ↦ rw (new, next, serving) h
          | inr idle ↦ rw (new, next, idle) h
        ]
      ]
    ]

    -- A replicated mutation sets the generation to its own, or leaves it.
    put_replicated-Keeps :
        (x : Document) (generation : ℕ) (outcome : Outcome)
        → P generation
        → Keeps Within (put_replicated cfg x generation outcome)
    unfolding put_replicated
    put_replicated-Keeps x generation duplicate g e h = h
    put_replicated-Keeps x generation gap g e h = h
    put_replicated-Keeps x generation applied g e h =
        elim (Result-cases (embed_document cfg x.text)) [
          | inr (error, failed) ↦ rw failed h
          | inl (v, embedded) ↦ elim (Result-cases (store_put x generation e.store).0) [
            | inr (error, failed) ↦ rw (embedded, failed) h
            | inl (created, stored) ↦
                let block = degrade_on_failure cfg (apply_derived cfg x (tokens_of cfg x) v) in
                let e1 = record e { store = (store_put x generation e.store).1 } in
                elim (Result-cases (block e1).0) [
                  | inl (u, done) ↦ rw (embedded, stored, done) g
                  | inr (error, failed) ↦
                      rw (embedded, stored, failed)
                        (degrade_on_failure-Keeps (apply_derived cfg x (tokens_of cfg x) v)
                          (apply_derived-Keeps x v) e1 h)
                ]
          ]
        ]

    delete_replicated-Keeps :
        (d : Str) (generation : ℕ) (outcome : Outcome)
        → P generation
        → Keeps Within (delete_replicated cfg d generation outcome)
    unfolding delete_replicated
    delete_replicated-Keeps d generation duplicate g e h = h
    delete_replicated-Keeps d generation gap g e h = h
    delete_replicated-Keeps d generation applied g e h =
        elim (Result-cases (store_delete d generation e.store).0) [
          | inr (error, failed) ↦ rw failed h
          | inl (existed, stored) ↦
              let block = degrade_on_failure cfg (remove_if_cached cfg d) in
              let e1 = record e { store = (store_delete d generation e.store).1 } in
              elim (Result-cases (block e1).0) [
                | inl (u, done) ↦ rw (stored, done) g
                | inr (error, failed) ↦
                    rw (stored, failed)
                      (degrade_on_failure-Keeps (remove_if_cached cfg d) (remove_if_cached-Keeps d)
                        e1 h)
              ]
        ]

    pub apply_replicated_put-Keeps :
        (x : Document) (generation : ℕ)
        → P generation
        → Keeps Within (apply_replicated_put cfg x generation)
    unfolding apply_replicated_put
    apply_replicated_put-Keeps x generation g e h =
        elim (Result-cases (classify_generation cfg generation e).0) [
          | inl (outcome, classified) ↦ rw classified (
              put_replicated-Keeps x generation outcome g _
                (classify_generation-Keeps generation e h))
          | inr (error, refused) ↦ rw refused (classify_generation-Keeps generation e h)
        ]

    pub apply_replicated_delete-Keeps :
        (d : Str) (generation : ℕ)
        → P generation
        → Keeps Within (apply_replicated_delete cfg d generation)
    unfolding apply_replicated_delete
    apply_replicated_delete-Keeps d generation g e h =
        elim (Result-cases (classify_generation cfg generation e).0) [
          | inl (outcome, classified) ↦ rw classified (
              delete_replicated-Keeps d generation outcome g _
                (classify_generation-Keeps generation e h))
          | inr (error, refused) ↦ rw refused (classify_generation-Keeps generation e h)
        ]

    -- A write of the primary advances the generation by one, or leaves it.
    pub index_document-Keeps :
        (x : Document) (e : Engine vs)
        → P (e.generation + 1)
        → Within e
        → Within (index_document cfg x e).1
    unfolding index_document
    index_document-Keeps x e next h = elim (Result-cases (embed_document cfg x.text)) [
      | inr (error, failed) ↦ rw failed h
      | inl (v, embedded) ↦ elim (Bool-cases (is_ready e.state)) [
        | inr idle ↦ rw (embedded, idle) h
        | inl serving ↦ elim (Result-cases (store_put x (e.generation + 1) e.store).0) [
          | inr (error, failed) ↦ rw (embedded, serving, failed) h
          | inl (created, stored) ↦
              let block = degrade_on_failure cfg (apply_derived cfg x (tokens_of cfg x) v) in
              let e1 = record e {
                store = (store_put x (e.generation + 1) e.store).1;
                generation = e.generation + 1;
              } in
              let kept =
                degrade_on_failure-Keeps (apply_derived cfg x (tokens_of cfg x) v)
                  (apply_derived-Keeps x v) e1 next in
              elim (Result-cases (block e1).0) [
                | inl (u, done) ↦ rw (embedded, serving, stored, done) kept
                | inr (error, failed) ↦ rw (embedded, serving, stored, failed) kept
              ]
        ]
      ]
    ]

    pub delete_document-Keeps :
        (d : Str) (e : Engine vs)
        → P (e.generation + 1)
        → Within e
        → Within (delete_document cfg d e).1
    unfolding delete_document
    delete_document-Keeps d e next h = elim (Bool-cases (is_ready e.state)) [
      | inr idle ↦ rw idle h
      | inl serving ↦ elim (Bool-cases (member d e.documents)) [
        | inr m ↦ rw (serving, m) h
        | inl m ↦ elim (Result-cases (store_delete d (e.generation + 1) e.store).0) [
          | inr (error, failed) ↦ rw (serving, m, failed) h
          | inl (existed, stored) ↦
              rw (serving, m, stored)
                (degrade_on_failure-Keeps (remove_derived cfg d) (remove_derived-Keeps d) _ next)
        ]
      ]
    ]
