-- ===== src/Engine/Together.antt =====
-- What engines score together, against what one engine over all their documents scores.
use mathlib.Core.Path.{ap₂}
use pysearch.Base.{
  ℕ, Str, Dict, true, false, Option, none, some, List, [], ◌∷◌, ◌++◌, ◌≡◌, refl, ap, sym, subst,
  ◌∙◌, map, lookup, member, contains, take, All, concat_map, arith, or_else, lookup-append,
  lookup_present, str_lt_connected, lookup-append_absent, member-append, SameItems,
  sorted-SameItems, length-SameItems, length-map, member-cons, =ₛ_refl,
}
use pysearch.Float.{Float, IsOrdered}
use pysearch.Document.{Document}
use pysearch.Results.{SearchResult, top, item_le, ranks_before}
use pysearch.Results.Order.{item_le-IsPreorder}
use pysearch.Index.{CorpusStats}
use pysearch.Ranking.{score_query}
use pysearch.Ranking.Parted.{part_scores-SameItems}
use pysearch.VectorIndex.{Vectors}
use pysearch.Engine.{Config, Engine}
use pysearch.Engine.Sync.{InSync}
use pysearch.Engine.Searching.{hits_of, hit_of, sorted-map, scored_cached}
use pysearch.Engine.Parted.{
  documents_of, AreApart, HoldsAll, shards_of, merged_stats, AllRepresent-shards_of,
  concat_map-shards_of, AreDisjoint-shards_of, SameItems-union, merged_stats-AgreeOn,
}

module _ {fl : Float} {vs : Vectors fl} (cfg : Config vs) where
  -- An engine's documents have the same text in a dictionary.
  abbrev pub SameTexts : Dict Document → Engine vs → Type 0
  SameTexts documents e =
      (d : Str) → member d e.documents ≡ true → lookup d e.documents ≡ lookup d documents

  or_else_present :
      {A : Type 0} (d : Str) (m : Dict A) (o : Option A)
      → member d m ≡ true
      → or_else (lookup d m) o ≡ lookup d m
  or_else_present d m o h = let (a, found) = lookup_present d m h in rw found

  pub All-SameTexts :
      (documents : Dict Document) (engines : List (Engine vs))
      → AreApart cfg engines
      → ((d : Str)
          → member d (documents_of cfg engines) ≡ true
          → lookup d documents ≡ lookup d (documents_of cfg engines))
      → All (SameTexts documents) engines
  All-SameTexts documents [] a h = tt
  All-SameTexts documents (e ∷ engines) a h = (
    λ d m. sym (
        h d (rw (member-append, m))
        ∙ lookup-append d e.documents (documents_of cfg engines)
        ∙ or_else_present d e.documents (lookup d (documents_of cfg engines)) m),
    All-SameTexts documents engines a.1 λ d m.
        let other : member d e.documents ≡ false = ground (arith, a.0 d) in
        h d (rw (member-append, other) m)
        ∙ lookup-append_absent d e.documents (documents_of cfg engines) other,
  )

  pub hits-SameTexts :
      (documents documents' : Dict Document) (items : List (Str × fl.F))
      → ((d : Str) → member d items ≡ true → lookup d documents ≡ lookup d documents')
      → map (hit_of documents) items ≡ map (hit_of documents') items
  hits-SameTexts documents documents' [] h = refl
  hits-SameTexts documents documents' ((d, score) ∷ items) h =
      rw (h d (rw (member-cons, =ₛ_refl))) (
        ap (λ l. hit_of documents' (d, score) ∷ l)
          (hits-SameTexts documents documents' items
            (λ j m. h j (ground (arith, member-cons j d score items)))))

  pub hits-append :
      (documents : Dict Document) (l r : List (Str × fl.F))
      → map (hit_of documents) (l ++ r) ≡ map (hit_of documents) l ++ map (hit_of documents) r
  hits-append documents [] r = refl
  hits-append documents (x ∷ l) r = ap (λ t. hit_of documents x ∷ t) (hits-append documents l r)

  -- What the engines score together.
  abbrev pub hits_together : List Str → CorpusStats → List (Engine vs) → List (SearchResult fl.F)
  hits_together terms stats engines = concat_map (λ e. hits_of cfg e terms (some stats)) engines

  abbrev scores_together : List Str → CorpusStats → List (Engine vs) → List (Str × fl.F)
  scores_together terms stats engines =
      concat_map (λ e. score_query fl cfg.params e.index terms (some stats)) engines

  hits_together-eq :
      (documents : Dict Document) (terms : List Str) (stats : CorpusStats)
      (engines : List (Engine vs))
      → All (InSync cfg) engines
      → All (SameTexts documents) engines
      → hits_together terms stats engines
        ≡ map (hit_of documents) (scores_together terms stats engines)
  hits_together-eq documents terms stats [] y t = refl
  hits_together-eq documents terms stats (e ∷ engines) y t =
      let scores = score_query fl cfg.params e.index terms (some stats) in
      ap₂ (λ l r. l ++ r)
        (hits-SameTexts e.documents documents scores
          (λ d m. t.0 d (scored_cached cfg e terms (some stats) y.0 d m)))
        (hits_together-eq documents terms stats engines y.1 t.1)
      ∙ sym (hits-append documents scores (scores_together terms stats engines))

  decides :
      IsOrdered fl → (x y : Str × fl.F) → item_le fl x y ≡ true → item_le fl y x ≡ true → x.0 ≡ y.0
  unfolding item_le ranks_before
  decides o x y h k = ground (arith, str_lt_connected x.0 y.0)

  pub top-SameItems :
      (o : IsOrdered fl) (limit : ℕ) (documents : Dict Document) (m n : Dict fl.F)
      → SameItems m n
      → top fl limit (map (hit_of documents) m) ≡ top fl limit (map (hit_of documents) n)
  top-SameItems o limit documents m n h =
      ap₂ (λ total results. record { total = total; results = results })
        (length-map (hit_of documents) m
          ∙ length-SameItems m n h
          ∙ sym (length-map (hit_of documents) n))
        (ap (take limit) (
          sorted-map fl documents m
          ∙ ap (map (hit_of documents))
              (sorted-SameItems (item_le fl) (item_le-IsPreorder o) (decides o) m n h)
          ∙ sym (sorted-map fl documents n)))

  -- The best of what engines score together, under their merged statistics, are the best of what
  -- one engine over all their documents scores under its own.
  pub top-HoldsAll :
      (o : IsOrdered fl) (limit : ℕ) (whole : Engine vs) (engines : List (Engine vs))
      (terms known : List Str)
      → All (InSync cfg) engines
      → HoldsAll cfg whole engines
      → ((term : Str) → contains term terms ≡ true → contains term known ≡ true)
      → top fl limit (hits_together terms (merged_stats cfg known engines) engines)
        ≡ top fl limit (hits_of cfg whole terms none)
  top-HoldsAll o limit whole engines terms known y h covers =
      let stats = merged_stats cfg known engines in
      let same : SameItems (scores_together terms stats engines)
          (score_query fl cfg.params whole.index terms none) =
        subst (λ scores. SameItems scores (score_query fl cfg.params whole.index terms none))
          (concat_map-shards_of cfg (λ index. score_query fl cfg.params index terms (some stats))
            engines y)
          (part_scores-SameItems fl cfg.params terms stats (shards_of cfg engines y) whole.index
            h.in_sync.derived.corpus (AllRepresent-shards_of cfg engines y)
            (AreDisjoint-shards_of cfg engines y h.apart) h.in_sync.derived.indexed
            (SameItems-union cfg whole engines y h).agree
            (merged_stats-AgreeOn cfg whole engines y h terms known covers)) in
      ap (top fl limit) (
        hits_together-eq whole.documents terms stats engines y
          (All-SameTexts whole.documents engines h.apart (λ d m. h.same d)))
      ∙ top-SameItems o limit whole.documents (scores_together terms stats engines)
          (score_query fl cfg.params whole.index terms none) same
