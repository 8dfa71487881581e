-- ===== src/Fusion/Page.antt =====
-- A page of `reciprocal_rank_fusion` of app/hybrid/fusion.py against the two rankings.
use Prim.Native.Nat.{min}
use pysearch.Base.{
  ℕ, ◌+◌, ◌≤◌, Str, Dict, Bool, false, not, ◌&&◌, ◌||◌, Option, none, some, List, [], ◌∷◌, ◌++◌,
  ◌≡◌, refl, ap, sym, subst, ◌∙◌, lookup, keys, values, Distinct, Distinct-put, length, take, drop,
  map, sorted, insert, IsSorted, length-take, length-sorted, sorted-IsSorted, lookup-sorted,
  Distinct-sorted, take-append-drop, ltb, str_lt, ok, All, All-items, arith, inl, inr, Bool-cases,
}
use pysearch.Float.{Float, IsOrdered}
use pysearch.Results.{SearchResult, SearchResults, ranks_before}
use pysearch.Fusion.{
  FusionConfig, HybridHit, HybridResults, accumulate, fused_candidates, candidate_le,
  reciprocal_rank_fusion, lexical_step, semantic_step,
}
use pysearch.Fusion.Bounds.{candidate_le-IsPreorder, fused_candidates_bound, length-values}
use pysearch.Fusion.Ranks.{ranked_in, ids, fused, fused_candidates-ranks, ranked_in_id}

module _ {F : Type 0} where
  -- Hits as a dictionary, under the document of each.
  abbrev pub by_id : List (HybridHit F) → Dict (HybridHit F)
  by_id hits = map (λ hit. (hit.document_id, hit)) hits

  abbrev on_hits : (HybridHit F → HybridHit F → Bool) → Str × HybridHit F → Str × HybridHit F → Bool
  on_hits le a b = le a.1 b.1

  by_id-insert :
      (le : HybridHit F → HybridHit F → Bool) (x : HybridHit F) (hits : List (HybridHit F))
      → by_id (insert le x hits) ≡ insert (on_hits le) (x.document_id, x) (by_id hits)
  unfolding insert
  by_id-insert le x [] = refl
  by_id-insert le x (y ∷ hits) = elim (Bool-cases (le x y)) [
    | inl e ↦ rw e
    | inr e ↦ rw e (ap (λ l. (y.document_id, y) ∷ l) (by_id-insert le x hits))
  ]

  by_id-sorted :
      (le : HybridHit F → HybridHit F → Bool) (hits : List (HybridHit F))
      → by_id (sorted le hits) ≡ sorted (on_hits le) (by_id hits)
  unfolding sorted
  by_id-sorted le [] = refl
  by_id-sorted le (x ∷ hits) =
      by_id-insert le x (sorted le hits)
      ∙ ap (insert (on_hits le) (x.document_id, x)) (by_id-sorted le hits)

  abbrev Keyed : Str × HybridHit F → Type 0
  Keyed item = item.1.document_id ≡ item.0

  by_id-values : (m : Dict (HybridHit F)) → All Keyed m → by_id (values m) ≡ m
  by_id-values [] h = refl
  by_id-values ((k, v) ∷ m) h = λ i. (h.0 i, v) ∷ by_id-values m h.1 i

  abbrev id_of : Option (HybridHit F) → Str
  id_of none = []
  id_of (some v) = v.document_id

module _ (fl : Float) where
  open fl use {F, lt}

  -- The first hit has the greater score, or neither has, and the second's identifier is not the
  -- earlier one.
  abbrev pub best_first : HybridHit F → HybridHit F → Bool
  best_first a b =
      lt b.score a.score || (not (lt a.score b.score) && not (str_lt b.document_id a.document_id))

  candidate_le-best_first :
      (o : IsOrdered fl) (a b : HybridHit F) → candidate_le fl a b ≡ best_first a b
  unfolding candidate_le ranks_before
  candidate_le-best_first o a b = ground (arith, o.asym b.score a.score)

  IsSorted-best_first :
      (o : IsOrdered fl) (hits : List (HybridHit F))
      → IsSorted (candidate_le fl) hits
      → IsSorted best_first hits
  IsSorted-best_first o [] h = tt
  IsSorted-best_first o (x ∷ []) h = tt
  IsSorted-best_first o (x ∷ y ∷ hits) h =
      (sym (candidate_le-best_first o x y) ∙ h.0, IsSorted-best_first o (y ∷ hits) h.1)

  Distinct-accumulate :
      (step : ℕ → SearchResult F → HybridHit F → HybridHit F) (rank : ℕ)
      (hits : List (SearchResult F)) (candidates : Dict (HybridHit F))
      → Distinct (keys candidates)
      → Distinct (keys (accumulate fl step rank hits candidates))
  unfolding accumulate
  Distinct-accumulate step rank [] candidates u = u
  Distinct-accumulate step rank (hit ∷ hits) candidates u =
      Distinct-accumulate step (rank + 1) hits _ (Distinct-put _ _ candidates u)

  Distinct-fused_candidates :
      (settings : FusionConfig) (lexical semantic : List (SearchResult F))
      → Distinct (keys (fused_candidates fl settings lexical semantic))
  unfolding fused_candidates
  Distinct-fused_candidates settings lexical semantic =
      Distinct-accumulate (semantic_step fl settings) 1 semantic _
        (Distinct-accumulate (lexical_step fl settings) 1 lexical [] tt)

  fused_id :
      (settings : FusionConfig) (d : Str) (l s : Option (ℕ × SearchResult F)) (v : HybridHit F)
      → ((r : ℕ) (hit : SearchResult F) → l ≡ some (r, hit) → hit.document_id ≡ d)
      → ((r : ℕ) (hit : SearchResult F) → s ≡ some (r, hit) → hit.document_id ≡ d)
      → fused fl settings l s ≡ some v
      → v.document_id ≡ d
  fused_id settings d none none v f g h = absurd (cc h)
  fused_id settings d (some (r, hit)) none v f g h = sym (ap id_of h) ∙ f r hit refl
  fused_id settings d none (some (r, hit)) v f g h = sym (ap id_of h) ∙ g r hit refl
  fused_id settings d (some (r, hit)) (some (q, other)) v f g h = sym (ap id_of h) ∙ f r hit refl

  module _ (settings : FusionConfig) (lexical semantic : List (SearchResult F))
      (u : Distinct (ids lexical)) (w : Distinct (ids semantic)) where
    abbrev candidates : Dict (HybridHit F)
    candidates = fused_candidates fl settings lexical semantic

    candidates-Distinct : Distinct (keys candidates)
    candidates-Distinct = Distinct-fused_candidates settings lexical semantic

    by_id-candidates : by_id (values candidates) ≡ candidates
    by_id-candidates = by_id-values candidates (
        All-items Keyed candidates candidates-Distinct λ d v h.
          fused_id settings d (ranked_in 1 d lexical) (ranked_in 1 d semantic) v
            (ranked_in_id 1 d lexical) (ranked_in_id 1 d semantic)
            (sym (fused_candidates-ranks fl settings lexical semantic d u w) ∙ h))

    abbrev ranked : List (HybridHit F)
    ranked = sorted (candidate_le fl) (values candidates)

    by_id-ranked : by_id ranked ≡ sorted (on_hits (candidate_le fl)) candidates
    by_id-ranked =
        by_id-sorted (candidate_le fl) (values candidates)
        ∙ ap (sorted (on_hits (candidate_le fl))) by_id-candidates

    -- The results are all the candidates that the two lists make, each once, best first.
    abbrev pub RanksAll : List (HybridHit F) → Type 0
    RanksAll hits =
        IsSorted best_first hits
        × Distinct (keys (by_id hits))
        × ((d : Str)
            → lookup d (by_id hits)
              ≡ fused fl settings (ranked_in 1 d lexical) (ranked_in 1 d semantic))

    ranked-RanksAll : IsOrdered fl → RanksAll ranked
    ranked-RanksAll o = (
      IsSorted-best_first o ranked
          (sorted-IsSorted (candidate_le-IsPreorder fl o) (values candidates)),
      subst (λ m. Distinct (keys m)) (sym by_id-ranked)
          (Distinct-sorted (on_hits (candidate_le fl)) candidates candidates-Distinct),
      λ d.
          ap (lookup d) by_id-ranked
          ∙ lookup-sorted (on_hits (candidate_le fl)) d candidates candidates-Distinct
          ∙ fused_candidates-ranks fl settings lexical semantic d u w,
    )

  -- Over ordered floats, fusing two rankings that name each document once, for a page of at least
  -- one result, returns. Together with some list of further results, the page is a list of all the
  -- candidates: every document that a ranking names has exactly one result there, which is the one
  -- that its ranks and scores in the two rankings make, and no other document has one. The list is
  -- in falling order of score, and by identifier where neither score is greater. The page is its start,
  -- with as many results as asked for or as there are, whichever is less; the total counts all of
  -- them, and is no more than the results in both rankings together.
  pub reciprocal_rank_fusion-RanksAll :
      (o : IsOrdered fl) (lexical semantic : SearchResults F) (limit : ℕ) (settings : FusionConfig)
      → (u : Distinct (ids lexical.results)) → (w : Distinct (ids semantic.results)) → 1 ≤ limit
      → (page : HybridResults F) × (rest : List (HybridHit F)) × (reciprocal_rank_fusion fl lexical
            semantic limit settings
          ≡ ok page)
        × RanksAll settings lexical.results semantic.results u w (page.results ++ rest)
        × (length page.results ≡ min limit page.total)
        × (page.total ≡ length (page.results ++ rest))
        × (page.total ≤ length lexical.results + length semantic.results)
  unfolding reciprocal_rank_fusion
  reciprocal_rank_fusion-RanksAll o lexical semantic limit settings u w h =
      let found = candidates settings lexical.results semantic.results u w in
      let all = ranked settings lexical.results semantic.results u w in
      let enough : ltb limit 1 ≡ false = ground arith in
      let whole : take limit all ++ drop limit all ≡ all = take-append-drop limit all in
      let count : length all ≡ length found =
        length-sorted (candidate_le fl) (values found) ∙ length-values found in
      (
        record { total = length found; results = take limit all },
        drop limit all,
        rw enough,
        subst (RanksAll settings lexical.results semantic.results u w) (sym whole)
            (ranked-RanksAll settings lexical.results semantic.results u w o),
        length-take limit all ∙ ap (min limit) count,
        sym (ap length whole ∙ count),
        fused_candidates_bound fl settings lexical.results semantic.results,
      )
