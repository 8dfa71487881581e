-- ===== src/Fusion/Ranks.antt =====
-- A fused score is the sum of the reciprocal ranks, and the ranks are the positions in the lists.
use pysearch.Base.{
  sym, ℕ, ◌+◌, Str, Dict, false, Option, none, some, List, [], ◌∷◌, ◌≡◌, refl, ap, subst, ◌∙◌,
  lookup, contains, Distinct, map, if◌then◌else◌, ◌=ₛ◌, =ₛ_iff, arith, inl, inr, Bool-cases,
  lookup-put,
}
use pysearch.Float.{Float}
use pysearch.Results.{SearchResult}
use pysearch.Fusion.{
  FusionConfig, HybridHit, candidate_or, lexical_step, semantic_step, accumulate, fused_candidates,
}

module _ {F : Type 0} where
  -- The rank at which a document stands in a list that starts at a rank, with its hit.
  pub ranked_in : ℕ → Str → List (SearchResult F) → Option (ℕ × SearchResult F)
  ranked_in rank d [] = none
  ranked_in rank d (hit ∷ hits) =
      let rest = ranked_in (rank + 1) d hits in
      if hit.document_id =ₛ d then some (rank, hit) else rest

  abbrev pub ids : List (SearchResult F) → List Str
  ids hits = map (λ hit. hit.document_id) hits

  not_ranked :
      (rank : ℕ) (d : Str) (hits : List (SearchResult F))
      → contains d (ids hits) ≡ false
      → ranked_in rank d hits ≡ none
  unfolding ranked_in contains
  not_ranked rank d [] h = refl
  not_ranked rank d (hit ∷ hits) h = elim (Bool-cases (hit.document_id =ₛ d)) [
    | inl e ↦ absurd (ground (arith, =ₛ_iff hit.document_id d, =ₛ_iff d hit.document_id))
    | inr e ↦ rw e (
        not_ranked (rank + 1) d hits
          (ground (arith, =ₛ_iff hit.document_id d, =ₛ_iff d hit.document_id)))
  ]

  pub ranked_in_id :
      (rank : ℕ) (d : Str) (hits : List (SearchResult F)) (r : ℕ) (hit : SearchResult F)
      → ranked_in rank d hits ≡ some (r, hit)
      → hit.document_id ≡ d
  unfolding ranked_in
  ranked_in_id rank d [] r hit h = absurd (cc h)
  ranked_in_id rank d (x ∷ hits) r hit h = elim (Bool-cases (x.document_id =ₛ d)) [
    | inl e ↦
        let found : some (rank, x) ≡ some (r, hit) = rw e at h in
        let name : x.document_id ≡ d = (=ₛ_iff x.document_id d).0 e in
        let same : x ≡ hit = cc in sym (ap (λ y. y.document_id) same) ∙ name
    | inr e ↦
        let rest : ranked_in (rank + 1) d hits ≡ some (r, hit) = rw e at h in
        ranked_in_id (rank + 1) d hits r hit rest
  ]

module _ (fl : Float) where
  open fl use {F, of_nat, add, div}

  -- What a loop makes of a candidate.
  abbrev after :
      (ℕ → SearchResult F → HybridHit F → HybridHit F)
      → Option (ℕ × SearchResult F)
      → Option (HybridHit F)
      → Option (HybridHit F)
  after step none candidate = candidate
  after step (some (rank, hit)) candidate = some (step rank hit (candidate_or fl hit candidate))

  lookup-accumulate :
      (step : ℕ → SearchResult F → HybridHit F → HybridHit F) (rank : ℕ) (d : Str)
      (hits : List (SearchResult F)) (candidates : Dict (HybridHit F))
      → Distinct (ids hits)
      → lookup d (accumulate fl step rank hits candidates)
        ≡ after step (ranked_in rank d hits) (lookup d candidates)
  unfolding accumulate ranked_in
  lookup-accumulate step rank d [] candidates u = refl
  lookup-accumulate step rank d (hit ∷ hits) candidates u =
      lookup-accumulate step (rank + 1) d hits _ u.1 ∙ elim (Bool-cases (hit.document_id =ₛ d)) [
        | inl e ↦
            let same : hit.document_id ≡ d = (=ₛ_iff hit.document_id d).0 e in
            let gone : ranked_in (rank + 1) d hits ≡ none =
              not_ranked (rank + 1) d hits (subst (λ k. contains k (ids hits) ≡ false) same u.0) in
            rw (gone, lookup-put, e)
              (ap (λ k. some (step rank hit (candidate_or fl hit (lookup k candidates)))) same)
        | inr e ↦ rw (lookup-put, e)
      ]

  -- 1.0 / (k + rank)
  abbrev pub reciprocal : FusionConfig → ℕ → F
  reciprocal settings rank = div (of_nat 1) (of_nat (settings.rrf_k + rank))

  -- The candidate that the ranks and scores of a document in the two lists make: the first list
  -- that has it gives the text, and a list that does not have it adds nothing to the score.
  abbrev pub fused :
      FusionConfig
      → Option (ℕ × SearchResult F)
      → Option (ℕ × SearchResult F)
      → Option (HybridHit F)
  fused settings none none = none
  fused settings (some (rank, hit)) none = some (record {
    document_id = hit.document_id;
    score = add (of_nat 0) (reciprocal settings rank);
    text = hit.text;
    lexical_rank = some rank;
    semantic_rank = none;
    lexical_score = some hit.score;
    semantic_score = none;
  })
  fused settings none (some (rank, hit)) = some (record {
    document_id = hit.document_id;
    score = add (of_nat 0) (reciprocal settings rank);
    text = hit.text;
    lexical_rank = none;
    semantic_rank = some rank;
    lexical_score = none;
    semantic_score = some hit.score;
  })
  fused settings (some (l, lexical)) (some (s, semantic)) = some (record {
    document_id = lexical.document_id;
    score = add (add (of_nat 0) (reciprocal settings l)) (reciprocal settings s);
    text = lexical.text;
    lexical_rank = some l;
    semantic_rank = some s;
    lexical_score = some lexical.score;
    semantic_score = some semantic.score;
  })

  two_steps :
      (settings : FusionConfig) (l s : Option (ℕ × SearchResult F))
      → after (semantic_step fl settings) s (after (lexical_step fl settings) l none)
        ≡ fused settings l s
  two_steps settings none none = refl
  two_steps settings (some l) none = refl
  two_steps settings none (some s) = refl
  two_steps settings (some l) (some s) = refl

  -- Over two lists that name each document once, the candidate of a document is the one that its
  -- ranks and scores in the two lists make: its score is the sum of 1 / (k + rank) over the lists
  -- that have it, the first list that has it gives the text, and where neither has it there is no
  -- candidate.
  pub fused_candidates-ranks :
      (settings : FusionConfig) (lexical semantic : List (SearchResult F)) (d : Str)
      → Distinct (ids lexical)
      → Distinct (ids semantic)
      → lookup d (fused_candidates fl settings lexical semantic)
        ≡ fused settings (ranked_in 1 d lexical) (ranked_in 1 d semantic)
  unfolding fused_candidates lookup
  fused_candidates-ranks settings lexical semantic d u w =
      lookup-accumulate (semantic_step fl settings) 1 d semantic _ w
      ∙ ap (after (semantic_step fl settings) (ranked_in 1 d semantic))
          (lookup-accumulate (lexical_step fl settings) 1 d lexical [] u)
      ∙ two_steps settings (ranked_in 1 d lexical) (ranked_in 1 d semantic)
