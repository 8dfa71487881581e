-- ===== src/Cluster/Gathering.antt =====
-- A fan-out gives one answer for every shard, or none at all.
use pysearch.Base.{
  ℕ, suc, ◌+◌, List, [], ◌∷◌, ◌≡◌, ◌≢◌, refl, ap, ◌∙◌, map, length, Error, Result, ok, err, Exec,
  distributed_search,
}
use pysearch.Cluster.Coordinator.{run_all, answers, failed_shards, all_or_none, gather}

module _ {ℓ} {A : Type ℓ} where
  -- The number and the outcome of every shard whose request raised.
  pub raised : ℕ → List (Result A) → List (ℕ × Error)
  raised position [] = []
  raised position (ok _ ∷ outcomes) = raised (position + 1) outcomes
  raised position (err error ∷ outcomes) = (position, error) ∷ raised (position + 1) outcomes

  failed_shards-raised :
      (position : ℕ) (outcomes : List (Result A))
      → failed_shards position outcomes ≡ map (λ p. p.0) (raised position outcomes)
  unfolding raised
  failed_shards-raised position [] = refl
  failed_shards-raised position (ok a ∷ outcomes) = failed_shards-raised (position + 1) outcomes
  failed_shards-raised position (err error ∷ outcomes) =
      ap (λ l. position ∷ l) (failed_shards-raised (position + 1) outcomes)

  all_answered :
      (position : ℕ) (outcomes : List (Result A))
      → failed_shards position outcomes ≡ []
      → outcomes ≡ map ok (answers outcomes)
  all_answered position [] h = refl
  all_answered position (ok a ∷ outcomes) h =
      ap (λ l. ok a ∷ l) (all_answered (position + 1) outcomes h)
  all_answered position (err error ∷ outcomes) h = cc

  answers-ok : (results : List A) → answers (map ok results) ≡ results
  answers-ok [] = refl
  answers-ok (a ∷ results) = ap (λ l. a ∷ l) (answers-ok results)

  failed_shards-ok :
      (position : ℕ) (results : List A) → failed_shards position (map ok results) ≡ []
  failed_shards-ok position [] = refl
  failed_shards-ok position (a ∷ results) = failed_shards-ok (position + 1) results

  returned :
      (failed : List ℕ) (found results : List A)
      → all_or_none failed found ≡ ok results
      → (failed ≡ []) × (found ≡ results)
  unfolding all_or_none
  returned [] found results h = (refl, cc)
  returned (shard_id ∷ failed) found results h = cc

  refused :
      (failed : List ℕ) (found : List A) (error : Error)
      → all_or_none failed found ≡ err error
      → (failed ≢ []) × (error ≡ distributed_search failed)
  unfolding all_or_none
  refused [] found error h = cc
  refused (shard_id ∷ failed) found error h = (λ e. cc, cc)

  module _ {S : Type 0} where
    length-run_all : (asks : List (Exec S A)) (s : S) → length (run_all asks s).0 ≡ length asks
    unfolding run_all
    length-run_all [] s = refl
    length-run_all (ask ∷ asks) s = ap suc (length-run_all asks (ask s).1)

    pub gather-ok :
        (asks : List (Exec S A)) (s s' : S) (results : List A)
        → run_all asks s ≡ (map ok results, s')
        → gather asks s ≡ (ok results, s')
    unfolding gather all_or_none
    gather-ok asks s s' results h = rw (h, failed_shards-ok, answers-ok)

    -- A fan-out makes every request. It returns exactly if every request did, with the answers in
    -- the order of the shards; where it raises, some request did, and the error names the shards
    -- of exactly those that did. The state is that after all of the requests, in either case.
    pub gather-all :
        (asks : List (Exec S A)) (s : S)
        → let (outcomes, after) = run_all asks s in
          (length outcomes ≡ length asks)
          × ((gather asks s).1 ≡ after)
          × ((results : List A) → (gather asks s).0 ≡ ok results → outcomes ≡ map ok results)
          × ((results : List A) → outcomes ≡ map ok results → (gather asks s).0 ≡ ok results)
          × ((error : Error)
              → (gather asks s).0 ≡ err error
              → (raised 0 outcomes ≢ [])
                × (error ≡ distributed_search (map (λ p. p.0) (raised 0 outcomes))))
    unfolding gather all_or_none
    gather-all asks s = (
      length-run_all asks s,
      refl,
      λ results h.
          let (quiet, found) = returned _ _ results h in
          all_answered 0 (run_all asks s).0 quiet ∙ ap (map ok) found,
      λ results e. rw (e, failed_shards-ok, answers-ok),
      λ error h.
          let (some_failed, same) = refused _ _ error h in
          let numbers = failed_shards-raised 0 (run_all asks s).0 in
          (
            λ e. some_failed (numbers ∙ ap (map (λ p. p.0)) e),
            same ∙ ap distributed_search numbers,
          ),
    )
