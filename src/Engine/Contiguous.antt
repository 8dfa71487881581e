-- ===== src/Engine/Contiguous.antt =====
-- Which generation a copy accepts.
use pysearch.Base.{
  ℕ, ◌+◌, ◌≤◌, ◌<◌, Bool, true, false, Option, ◌≡◌, refl, ltb, leb, arith, inl, inr, Bool-cases,
  Result, ok, err, continue, ◌>>=◌, ◌>>◌, pure, lift,
}
use pysearch.Float.{Float}
use pysearch.Document.{Document}
use pysearch.VectorIndex.{Vectors}
use pysearch.Storage.{Store, store_put}
use pysearch.Engine.{
  Config, Engine, Outcome, applied, duplicate, gap, is_ready, out_of_sync, tokens_of,
  embed_document, apply_derived, degrade_on_failure, degraded_if_failed, classify_generation,
  put_replicated, apply_replicated_put, with_store, set_generation,
}

module _ {fl : Float} {vs : Vectors fl} (cfg : Config vs) where
  abbrev Advanced : ℕ → Result Outcome × Engine vs → Type 0
  Advanced generation r = r.0 ≡ ok applied → r.1.generation ≡ generation

  concluded-Advanced :
      (generation : ℕ) (r : Result (Unit {0}) × Engine vs)
      → Advanced generation (
          continue
            (degraded_if_failed cfg r).0
            (λ _. set_generation cfg generation >> pure applied)
            (degraded_if_failed cfg r).1)
  unfolding degraded_if_failed
  concluded-Advanced generation (ok _, e) h = refl
  concluded-Advanced generation (err _, e) h = cc

  put_replicated-Advanced :
      (x : Document) (generation : ℕ) (e : Engine vs)
      → Advanced generation (put_replicated cfg x generation applied e)
  unfolding put_replicated degrade_on_failure
  put_replicated-Advanced x generation e = go (embed_document cfg x.text)
    where
      stored :
          (v : Option vs.V) (r : Result Bool × Store)
          → Advanced generation (
              continue r.0
                (λ _.
                  degrade_on_failure cfg (apply_derived cfg x (tokens_of cfg x) v)
                  >> (set_generation cfg generation >> pure applied))
                (record e { store = r.1 }))
      stored v (ok _, s) =
          concluded-Advanced generation
            (apply_derived cfg x (tokens_of cfg x) v (record e { store = s }))
      stored v (err _, s) = λ h. cc

      go :
          (r : Result (Option vs.V))
          → Advanced generation (
              (lift r >>= λ v.
              with_store cfg (store_put x generation)
              >> (degrade_on_failure cfg (apply_derived cfg x (tokens_of cfg x) v)
                  >> (set_generation cfg generation >> pure applied)))
                e)
      go (ok v) = stored v (store_put x generation e.store)
      go (err _) = λ h. cc

  -- What an applied write says of the copy that it reached.
  abbrev pub AppliedNext : ℕ → Engine vs → Result Outcome × Engine vs → Type 0
  AppliedNext generation e r =
      r.0 ≡ ok applied
      → (generation ≡ e.generation + 1) × (is_ready e.state ≡ true) × (r.1.generation ≡ generation)

  applied_next :
      (x : Document) (generation : ℕ) (e : Engine vs)
      → AppliedNext generation e (apply_replicated_put cfg x generation e)
  unfolding apply_replicated_put classify_generation
  applied_next x generation e = elim (Bool-cases (leb generation e.generation)) [
    | inl old ↦ rw old (unfold put_replicated in λ h. cc)
    | inr new ↦ elim (Bool-cases (ltb (e.generation + 1) generation)) [
      | inl missed ↦ rw (new, missed) (unfold put_replicated in λ h. cc)
      | inr next ↦ elim (Bool-cases (is_ready e.state)) [
        | inr idle ↦ rw (new, next, idle) (λ h. cc)
        | inl serving ↦
            rw (new, next, serving)
              (λ h. (ground arith, refl, put_replicated-Advanced x generation e h))
      ]
    ]
  ]

  -- A redelivery, at or below the copy's generation, succeeds and changes nothing. A generation
  -- beyond the next one is refused and takes the copy out of service. A write that is reported as
  -- applied had exactly the next generation, reached a ready copy, and took it to that
  -- generation.
  pub apply_replicated_put_contiguous :
      (x : Document) (generation : ℕ) (e : Engine vs)
      → (generation ≤ e.generation → apply_replicated_put cfg x generation e ≡ (ok duplicate, e))
        × (e.generation + 1 < generation
            → apply_replicated_put cfg x generation e ≡ (ok gap, record e { state = out_of_sync }))
        × AppliedNext generation e (apply_replicated_put cfg x generation e)
  unfolding apply_replicated_put classify_generation put_replicated
  apply_replicated_put_contiguous x generation e = (
    λ old. let b : leb generation e.generation ≡ true = ground arith in rw b,
    λ missed.
        let b : leb generation e.generation ≡ false = ground arith in
        let c : ltb (e.generation + 1) generation ≡ true = ground arith in rw (b, c),
    applied_next x generation e,
  )
