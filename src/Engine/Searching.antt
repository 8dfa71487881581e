-- ===== src/Engine/Searching.antt =====
-- A search by an engine that is in sync returns, and returns the best of all scored documents.
use pysearch.Base.{
  ℕ, zero, suc, Str, Dict, Bool, true, false, Option, none, some, List, [], ◌∷◌, ◌≡◌, refl, ap, sym,
  ◌∙◌, map, lookup, member, take, sorted, insert, if◌then◌else◌, =ₛ_refl, arith, inl, inr,
  Bool-cases, ok, member-cons, member-sorted, member-eq-is_some, lookup_present, lookup_absent,
  is_some, length-map, length-sorted, take_nil,
}
use mathlib.Core.Path.{ap₂}
use pysearch.Float.{Float}
use pysearch.Document.{Document}
use pysearch.Analysis.{analyze}
use pysearch.Results.{SearchResult, item_le, hit_le, top}
use pysearch.Index.{CorpusStats}
use pysearch.Ranking.{score_query, stats_for}
use pysearch.Ranking.Scores.{score_query-bm25, score_query_empty, nothing_to_score}
use pysearch.VectorIndex.{Vectors}
use pysearch.Engine.{Config, Engine, is_ready}
use pysearch.Engine.Sync.{InSync}
use pysearch.Engine.Query.{with_texts, search_locked, search}

abbrev pub text_of : Option Document → Str
text_of none = []
text_of (some x) = x.text

unscored :
    {F : Type 0} (b : Bool) (score : Option F)
    → is_some score ≡ false
    → is_some (if b then none else score) ≡ false
unscored true score h = refl
unscored false score h = h

module _ {F : Type 0} where
  abbrev pub hit_of : Dict Document → Str × F → SearchResult F
  hit_of documents (d, score) = record {
    document_id = d;
    score = score;
    text = text_of (lookup d documents);
  }

  pub with_texts-ok :
      (documents : Dict Document) (items : List (Str × F))
      → ((d : Str) → member d items ≡ true → member d documents ≡ true)
      → with_texts documents items ≡ ok (map (hit_of documents) items)
  unfolding with_texts
  with_texts-ok documents [] h = refl
  with_texts-ok documents ((d, score) ∷ items) h =
      let (x, found) = lookup_present d documents (h d (rw (member-cons, =ₛ_refl))) in
      rw (
        with_texts,
        found,
        with_texts-ok documents items (λ j m. h j (ground (arith, member-cons j d score items))),
      )

  pub member-take :
      (d : Str) (n : ℕ) (items : Dict F) → member d (take n items) ≡ true → member d items ≡ true
  member-take d zero items m = unfold member in cc
  member-take d (suc n) [] m = m
  member-take d (suc n) ((k, v) ∷ items) m =
      ground
        (arith, member-cons d k v items, member-cons d k v (take n items), member-take d n items)

  pub take-map :
      (documents : Dict Document) (n : ℕ) (items : List (Str × F))
      → map (hit_of documents) (take n items) ≡ take n (map (hit_of documents) items)
  take-map documents zero items = refl
  take-map documents (suc n) [] = refl
  take-map documents (suc n) (x ∷ items) =
      ap (λ l. hit_of documents x ∷ l) (take-map documents n items)

module _ (fl : Float) where
  insert-map :
      (documents : Dict Document) (x : Str × fl.F) (items : List (Str × fl.F))
      → insert (hit_le fl) (hit_of documents x) (map (hit_of documents) items)
        ≡ map (hit_of documents) (insert (item_le fl) x items)
  unfolding insert hit_le item_le
  insert-map documents x [] = refl
  insert-map documents x (y ∷ items) = elim (Bool-cases (item_le fl x y)) [
    | inl e ↦ rw e
    | inr e ↦ rw e (ap (λ l. hit_of documents y ∷ l) (insert-map documents x items))
  ]

  pub sorted-map :
      (documents : Dict Document) (items : List (Str × fl.F))
      → sorted (hit_le fl) (map (hit_of documents) items)
        ≡ map (hit_of documents) (sorted (item_le fl) items)
  unfolding sorted
  sorted-map documents [] = refl
  sorted-map documents (x ∷ items) =
      ap (insert (hit_le fl) (hit_of documents x)) (sorted-map documents items)
      ∙ insert-map documents x (sorted (item_le fl) items)

module _ {fl : Float} {vs : Vectors fl} (cfg : Config vs) where
  -- Every scored document of an engine, as a result.
  abbrev pub hits_of : Engine vs → List Str → Option CorpusStats → List (SearchResult fl.F)
  hits_of e terms given = map (hit_of e.documents) (score_query fl cfg.params e.index terms given)

  pub scored_cached :
      (e : Engine vs) (terms : List Str) (given : Option CorpusStats)
      → InSync cfg e
      → (d : Str) → member d (score_query fl cfg.params e.index terms given) ≡ true
      → member d e.documents ≡ true
  scored_cached e terms given y d m = elim (Bool-cases (member d e.documents)) [
    | inl cached ↦ cached
    | inr gone ↦
        let corpus = y.derived.corpus in
        let unknown : lookup d corpus ≡ none =
          y.derived.analyzed d ∙ rw (lookup_absent d e.documents gone) in
        let scored : is_some (lookup d (score_query fl cfg.params e.index terms given)) ≡ true =
          sym (member-eq-is_some d (score_query fl cfg.params e.index terms given)) ∙ m in
        let none_scored : is_some (lookup d (score_query fl cfg.params e.index terms given))
            ≡ false =
          ap is_some (score_query-bm25 fl cfg.params e.index corpus terms given d y.derived.indexed)
          ∙ rw unknown (
              unscored
                (nothing_to_score fl cfg.params (stats_for fl cfg.params e.index terms given)) none
                refl) in
        absurd (cc (none_scored, scored))
  ]

  search_locked-ok :
      (e : Engine vs) (terms : List Str) (limit : ℕ) (given : Option CorpusStats)
      → InSync cfg e
      → search_locked cfg terms limit given e ≡ (ok (top fl limit (hits_of e terms given)), e)
  unfolding search_locked sorted
  search_locked-ok e [] limit given y = rw (score_query_empty fl cfg.params e.index given, take_nil)
  search_locked-ok e (term ∷ terms) limit given y =
      let scores = score_query fl cfg.params e.index (term ∷ terms) given in
      let found = with_texts-ok e.documents (take limit (sorted (item_le fl) scores)) (λ d m.
        scored_cached e (term ∷ terms) given y d (
          sym (member-sorted (item_le fl) d scores)
          ∙ member-take d limit (sorted (item_le fl) scores) m)) in
      rw found (
        ap₂ (λ n results. (ok (record { total = n; results = results }), e))
          (length-sorted (item_le fl) scores ∙ sym (length-map (hit_of e.documents) scores))
          (take-map e.documents limit (sorted (item_le fl) scores)
            ∙ ap (take limit) (sym (sorted-map fl e.documents scores))))

  -- A ready engine that is in sync answers every query and changes nothing. Its answer is the
  -- best `limit` of all the documents that it scores, with their cached texts, and the total
  -- counts all of them.
  pub search-ok :
      (e : Engine vs) (query : Str) (limit : ℕ) (given : Option CorpusStats)
      → is_ready e.state ≡ true
      → InSync cfg e
      → search cfg query limit given e
        ≡ (ok (top fl limit (hits_of e (analyze cfg.unicode query) given)), e)
  unfolding search
  search-ok e query limit given serving y =
      rw serving (search_locked-ok e (analyze cfg.unicode query) limit given y)
