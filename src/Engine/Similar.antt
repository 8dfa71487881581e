-- ===== src/Engine/Similar.antt =====
-- A semantic search by one engine, and by engines that hold its documents and vectors in parts.
use mathlib.Core.Option
use mathlib.Core.Path.{ap₂}
use pysearch.Base.{
  ℕ, Str, Dict, true, false, Option, none, some, List, [], ◌∷◌, ◌++◌, ◌≡◌, refl, ap, sym, ◌∙◌, map,
  lookup, member, keys, Distinct, take, sorted, All, concat_map, ltb, arith, ok, or_else, is_some,
  is_some-map, lookup-append, member-append, member-eq-is_some, member-sorted, length-map,
  SameItems,
}
use pysearch.Float.{Float, IsOrdered}
use pysearch.Document.{Document}
use pysearch.Results.{SearchResult, item_le, top}
use pysearch.Index.Parted.{Distinct-append}
use pysearch.VectorIndex.{Vectors, VectorIndex, vector_for}
use pysearch.VectorIndex.Adding.{IsIndexed}
use pysearch.VectorIndex.Similarity.{
  compared, compared-Distinct, lookup-compared, length-similarities, search_vectors-ok,
}
use pysearch.Engine.{Config, Engine, is_ready}
use pysearch.Engine.Query.{semantic_search, semantic_search_locked}
use pysearch.Engine.Searching.{hit_of, with_texts-ok, member-take, take-map, sorted-map}
use pysearch.Engine.Parted.{AreApart, documents_of, HoldsAll, map-or_else}
use pysearch.Engine.Together.{SameTexts, All-SameTexts, hits-SameTexts, hits-append, top-SameItems}

module _ {fl : Float} {vs : Vectors fl} (cfg : Config vs) where
  -- A ready engine whose vectors are an index of them, for documents that it has cached.
  pub record Embeds (e : Engine vs) (index : VectorIndex vs) : Type 0 where
    pub serving : is_ready e.state ≡ true
    pub held : e.vectors ≡ some index
    pub indexed : IsIndexed vs index
    pub cached : (d : Str) → is_some (vector_for vs index d) ≡ true → member d e.documents ≡ true

  abbrev pub similar : vs.V → Engine vs → VectorIndex vs → List (SearchResult fl.F)
  similar query e index = map (hit_of e.documents) (compared vs query index)

  compared_cached :
      (query : vs.V) (e : Engine vs) (index : VectorIndex vs)
      → Embeds e index
      → (d : Str) → member d (compared vs query index) ≡ true
      → member d e.documents ≡ true
  compared_cached query e index y d m = y.cached d (
      sym (is_some-map (λ v. vs.dot v query) (vector_for vs index d))
      ∙ ap is_some (sym (lookup-compared vs query index y.indexed d))
      ∙ sym (member-eq-is_some d (compared vs query index))
      ∙ m)

  pub semantic_search-ok :
      (query : vs.V) (limit : ℕ) (e : Engine vs) (index : VectorIndex vs)
      → Embeds e index
      → ltb limit 1 ≡ false
      → vs.accepts index.dimension query ≡ true
      → semantic_search cfg query limit e ≡ (ok (top fl limit (similar query e index)), e)
  unfolding semantic_search semantic_search_locked
  semantic_search-ok query limit e index y enough fits =
      let items = compared vs query index in
      let found = with_texts-ok e.documents (take limit (sorted (item_le fl) items)) (λ d m.
        compared_cached query e index y d (
          sym (member-sorted (item_le fl) d items)
          ∙ member-take d limit (sorted (item_le fl) items) m)) in
      rw (y.serving, y.held, search_vectors-ok vs query limit index enough fits, found)
        (ap₂
          (λ n results.
            (ok (record { total = n; results = results }), record e { vectors = some index }))
          (sym (length-similarities vs query index.ids index.matrix y.indexed.rows)
            ∙ sym (length-map (hit_of e.documents) items))
          (take-map e.documents limit (sorted (item_le fl) items)
            ∙ ap (take limit) (sym (sorted-map fl e.documents items))))

  -- Engines with the indexes of their vectors.
  abbrev pub Parts : Type 0
  Parts = List (Engine vs × VectorIndex vs)

  abbrev pub engines_in : Parts → List (Engine vs)
  engines_in parts = map (λ p. p.0) parts

  -- The vector that the first of the indexes has for a document.
  abbrev pub vector_among : Parts → Str → Option vs.V
  vector_among [] d = none
  vector_among (p ∷ parts) d = or_else (vector_for vs p.1 d) (vector_among parts d)

  abbrev pub similar_together : vs.V → Parts → List (SearchResult fl.F)
  similar_together query parts = concat_map (λ p. similar query p.0 p.1) parts

  abbrev compared_together : vs.V → Parts → Dict fl.F
  compared_together query parts = concat_map (λ p. compared vs query p.1) parts

  member-together :
      (query : vs.V) (parts : Parts)
      → All (λ p. Embeds p.0 p.1) parts
      → (d : Str) → member d (compared_together query parts) ≡ true
      → member d (documents_of cfg (engines_in parts)) ≡ true
  member-together query [] y d m = unfold member in cc
  member-together query (p ∷ parts) y d m =
      let rest = documents_of cfg (engines_in parts) in
      ground (
        arith,
        member-append d p.0.documents rest,
        member-append d (compared vs query p.1) (compared_together query parts),
        compared_cached query p.0 p.1 y.0 d,
        member-together query parts y.1 d,
      )

  together-Distinct :
      (query : vs.V) (parts : Parts)
      → All (λ p. Embeds p.0 p.1) parts
      → AreApart cfg (engines_in parts)
      → Distinct (keys (compared_together query parts))
  together-Distinct query [] y a = tt
  together-Distinct query (p ∷ parts) y a =
      Distinct-append (compared vs query p.1) (compared_together query parts)
        (compared-Distinct vs query p.1 y.0.indexed) (together-Distinct query parts y.1 a.1)
        λ d m.
          let other = a.0 d (compared_cached query p.0 p.1 y.0 d m) in
          ground (arith, member-together query parts y.1 d, other)

  lookup-together :
      (query : vs.V) (parts : Parts)
      → All (λ p. Embeds p.0 p.1) parts
      → (d : Str)
      → lookup d (compared_together query parts)
        ≡ Option.map (λ v. vs.dot v query) (vector_among parts d)
  unfolding lookup
  lookup-together query [] y d = refl
  lookup-together query (p ∷ parts) y d =
      lookup-append d (compared vs query p.1) (compared_together query parts)
      ∙ ap₂ or_else (lookup-compared vs query p.1 y.0.indexed d) (lookup-together query parts y.1 d)
      ∙ sym (map-or_else cfg (λ v. vs.dot v query) (vector_for vs p.1 d) (vector_among parts d))

  similar_together-eq :
      (documents : Dict Document) (query : vs.V) (parts : Parts)
      → All (λ p. Embeds p.0 p.1) parts
      → All (SameTexts cfg documents) (engines_in parts)
      → similar_together query parts ≡ map (hit_of documents) (compared_together query parts)
  similar_together-eq documents query [] y t = refl
  similar_together-eq documents query (p ∷ parts) y t =
      let items = compared vs query p.1 in
      ap₂ (λ l r. l ++ r)
        (hits-SameTexts cfg p.0.documents documents items
          (λ d m. t.0 d (compared_cached query p.0 p.1 y.0 d m)))
        (similar_together-eq documents query parts y.1 t.1)
      ∙ sym (hits-append cfg documents items (compared_together query parts))

  -- The nearest of all that the parts hold are the nearest of what the whole holds.
  pub top-similar_together :
      (o : IsOrdered fl) (query : vs.V) (limit : ℕ) (whole : Engine vs) (index : VectorIndex vs)
      (parts : Parts)
      → All (λ p. Embeds p.0 p.1) parts
      → Embeds whole index
      → HoldsAll cfg whole (engines_in parts)
      → ((d : Str) → vector_for vs index d ≡ vector_among parts d)
      → top fl limit (similar_together query parts) ≡ top fl limit (similar query whole index)
  top-similar_together o query limit whole index parts y w h alike =
      let same : SameItems (compared_together query parts) (compared vs query index) = record {
        left = together-Distinct query parts y h.apart;
        right = compared-Distinct vs query index w.indexed;
        agree = λ d.
            lookup-together query parts y d
            ∙ ap (Option.map (λ v. vs.dot v query)) (sym (alike d))
            ∙ sym (lookup-compared vs query index w.indexed d);
      } in
      ap (top fl limit) (
        similar_together-eq whole.documents query parts y
          (All-SameTexts cfg whole.documents (engines_in parts) h.apart (λ d m. h.same d)))
      ∙ top-SameItems cfg o limit whole.documents (compared_together query parts)
          (compared vs query index) same
