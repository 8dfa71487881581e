-- ===== src/Engine/Replicated.antt =====
-- The replica's side: what a replicated mutation does to a copy, by its generation.
use pysearch.Base.{
  ℕ, ◌+◌, Str, false, Option, ◌≡◌, refl, ap, sym, subst, ◌∙◌, lookup, member, remove, keys,
  Distinct, remove_absent, is_some, is_some-map, member-eq-is_some, ltb, leb, inl, inr, Bool-cases,
  Result, Result-cases, ok, err, continue, ◌>>◌, pure,
}
use pysearch.Float.{Float}
use pysearch.Document.{Document}
use pysearch.VectorIndex.{Vectors, VectorIndex}
use pysearch.Storage.{Store}
use pysearch.Storage.Atomic.{store_put_cases, store_delete_cases}
use pysearch.Engine.{
  Config, Engine, Act, Outcome, applied, is_ready, tokens_of, embed_document, apply_derived,
  remove_derived, degraded_if_failed, degrade_on_failure, classify_generation, put_replicated,
  apply_replicated_put, remove_if_cached, delete_replicated, apply_replicated_delete,
  set_generation,
}
use pysearch.Engine.Derived.{Derived, Derived-put, Derived-remove}
use pysearch.Engine.Sync.{
  InSync, IsSound, Becomes, applied_to, committed, InSync-store, InSync-applied,
  apply_derived-Becomes,
}
use pysearch.Engine.Deleting.{removed_from, remove_derived-Becomes, InSync-removed}

module _ {fl : Float} {vs : Vectors fl} (cfg : Config vs) where
  -- What follows the derived update: `self._generation = generation` unless it raised.
  abbrev concluded : ℕ → Result (Unit {0}) × Engine vs → Result Outcome × Engine vs
  concluded generation r =
      continue (degraded_if_failed cfg r).0 (λ _. set_generation cfg generation >> pure applied)
        (degraded_if_failed cfg r).1

  concluded-IsSound :
      (m : Act cfg (Unit {0})) (generation : ℕ) (e : Engine vs)
      (f : Option (VectorIndex vs) → Engine vs)
      → Becomes cfg m e f
      → ((w : Option (VectorIndex vs)) → InSync cfg (record (f w) { generation = generation }))
      → IsSound cfg (concluded generation (m e)).1
  unfolding degraded_if_failed
  concluded-IsSound m generation e f (ok _, w, p) y =
      subst (λ r. IsSound cfg (concluded generation r).1) (sym p) (λ _. y w)
  concluded-IsSound m generation e f (err _, w, p) y =
      subst (λ r. IsSound cfg (concluded generation r).1) (sym p) (λ h. cc)

  put_replicated-IsSound :
      (x : Document) (generation : ℕ) (e : Engine vs)
      → InSync cfg e
      → IsSound cfg (put_replicated cfg x generation applied e).1
  unfolding put_replicated degrade_on_failure
  put_replicated-IsSound x generation e y = elim (Result-cases (embed_document cfg x.text)) [
    | inr (error, failed) ↦ rw failed (λ _. y)
    | inl (v, embedded) ↦ elim (store_put_cases e.store x generation) [
      | inl (s, failed, same) ↦ rw (embedded, failed) (λ _. InSync-store cfg e s same y)
      | inr (s, done, rows, stored) ↦
          let e1 = record e { store = s } in
          let fresh = (Derived-put cfg e.documents e.index e.store.rows x y.derived).0 in
          rw (embedded, done)
            (concluded-IsSound (apply_derived cfg x (tokens_of cfg x) v) generation e1
              (λ w. applied_to cfg x w e1) (apply_derived-Becomes cfg x v e1 fresh)
              (InSync-applied cfg x e s generation rows stored y))
    ]
  ]

  -- If a ready engine is in sync with its storage, that is so after a replicated write too,
  -- whatever its generation and whatever fails.
  pub apply_replicated_put-IsSound :
      (x : Document) (generation : ℕ) (e : Engine vs)
      → IsSound cfg e
      → IsSound cfg (apply_replicated_put cfg x generation e).1
  unfolding apply_replicated_put classify_generation put_replicated
  apply_replicated_put-IsSound x generation e h = elim (Bool-cases (leb generation e.generation)) [
    | inl old ↦ rw old h
    | inr new ↦ elim (Bool-cases (ltb (e.generation + 1) generation)) [
      | inl missed ↦ rw (new, missed) (λ k. cc)
      | inr next ↦ elim (Bool-cases (is_ready e.state)) [
        | inr idle ↦ rw (new, next, idle) h
        | inl serving ↦ rw (new, next, serving) (put_replicated-IsSound x generation e (h serving))
      ]
    ]
  ]

  -- Nothing to delete: neither the rows nor the derived state hold the document.
  InSync-deleted_absent :
      (d : Str) (e : Engine vs) (s : Store) (generation : ℕ)
      → member d e.documents ≡ false
      → s.rows ≡ remove d e.store.rows
      → s.generation ≡ generation
      → InSync cfg e
      → InSync cfg (committed cfg s generation e)
  InSync-deleted_absent d e s generation m rows stored y =
      let gone : member d e.store.rows ≡ false =
        member-eq-is_some d e.store.rows
        ∙ ap is_some (y.derived.stored d)
        ∙ is_some-map (λ x. x.text) (lookup d e.documents)
        ∙ sym (member-eq-is_some d e.documents)
        ∙ m in
      let same : s.rows ≡ e.store.rows = rows ∙ remove_absent d e.store.rows gone in
      record {
        derived = subst (λ l. Derived cfg e.documents e.index l) (sym same) y.derived;
        generation = sym stored;
        keyed = subst (λ l. Distinct (keys l)) (sym same) y.keyed;
      }

  delete_replicated-IsSound :
      (d : Str) (generation : ℕ) (e : Engine vs)
      → InSync cfg e
      → IsSound cfg (delete_replicated cfg d generation applied e).1
  unfolding delete_replicated degrade_on_failure remove_if_cached
  delete_replicated-IsSound d generation e y = elim (store_delete_cases e.store d generation) [
    | inl (s, failed, same) ↦ rw failed (λ _. InSync-store cfg e s same y)
    | inr (s, done, rows, stored) ↦
        let e1 = record e { store = s } in
        elim (Bool-cases (member d e.documents)) [
          | inl m ↦
              let known = (Derived-remove cfg e.documents e.index e.store.rows d y.derived m).0 in
              rw (done, m)
                (concluded-IsSound (remove_derived cfg d) generation e1
                  (λ w. removed_from cfg d w e1) (remove_derived-Becomes cfg d e1 m known)
                  (InSync-removed cfg d e s generation m rows stored y))
          | inr m ↦
              rw (done, m)
                (concluded-IsSound (pure tt) generation e1 (λ w. e1) (ok tt, e.vectors, refl)
                  (λ w. InSync-deleted_absent d e s generation m rows stored y))
        ]
  ]

  -- If a ready engine is in sync with its storage, that is so after a replicated deletion too,
  -- whatever its generation, whatever fails, and whether or not the document is there.
  pub apply_replicated_delete-IsSound :
      (d : Str) (generation : ℕ) (e : Engine vs)
      → IsSound cfg e
      → IsSound cfg (apply_replicated_delete cfg d generation e).1
  unfolding apply_replicated_delete classify_generation delete_replicated
  apply_replicated_delete-IsSound d generation e h =
      elim (Bool-cases (leb generation e.generation)) [
        | inl old ↦ rw old h
        | inr new ↦ elim (Bool-cases (ltb (e.generation + 1) generation)) [
          | inl missed ↦ rw (new, missed) (λ k. cc)
          | inr next ↦ elim (Bool-cases (is_ready e.state)) [
            | inr idle ↦ rw (new, next, idle) h
            | inl serving ↦
                rw (new, next, serving) (delete_replicated-IsSound d generation e (h serving))
          ]
        ]
      ]
