-- ===== src/Engine/Checks.antt =====
-- app/search/engine.py: validate, and status; an engine in sync passes its own validation.
use mathlib.Core.Option
use pysearch.Base.{
  ℕ, Str, Dict, Bool, true, not, ◌&&◌, Option, none, some, List, [], ◌∷◌, ◌≡◌, refl, ap, sym, subst,
  ◌∙◌, lookup, member, keys, map, contains, length, sorted, Distinct, All-of_map, All-items,
  is_some, is_some-map, ◌==◌, ◌=ₛ◌, =ₛ_refl, ==_refl, Result, ok, err, and_then, raise_if, lift,
  gets, ◌>>=◌, ◌>>◌, for_each, for_each-ok, index_invariant, member-eq-contains, member-eq-is_some,
  length-SameItems, lookup-sorted, Distinct-sorted, Option-cases, inl, inr, arith,
}
use pysearch.Float.{Float}
use pysearch.Document.{Document}
use pysearch.Index.{document_ids}
use pysearch.Index.Corpus.{map_values}
use pysearch.Index.Columns.{keys-map_values, lookup-map_values, length-map_values}
use pysearch.Index.Validation.{validate, validate-ok}
use pysearch.VectorIndex.{Vectors, VectorIndex, validate_vectors}
use pysearch.Storage.{
  store_generation, store_count, store_documents, attempt, attempt_with, document_of, row_le,
}
use pysearch.Engine.{NodeState, is_ready, Config, Engine, Act, with_store, tokens_of}
use pysearch.Engine.Sync.{InSync}

abbrev pub contains_all : List Str → List Str → Bool
contains_all [] ks = true
contains_all (j ∷ js) ks = contains j ks && contains_all js ks

-- set(js) == ks, for lists that stand for sets
abbrev pub same_set : List Str → List Str → Bool
same_set js ks = contains_all js ks && contains_all ks js

-- EngineStatus, without its text
pub record EngineStatus : Type 0 where
  pub state : NodeState
  pub ready : Bool
  pub generation : ℕ

module _ {fl : Float} {vs : Vectors fl} where
  unfoldable pub status : Engine vs → EngineStatus
  status e = record { state = e.state; ready = is_ready e.state; generation = e.generation }

  validate_with : Dict Document → Option (VectorIndex vs) → Result (Unit {0})
  validate_with documents none = ok tt
  validate_with documents (some vectors) =
      and_then (validate_vectors vs vectors)
        λ _. raise_if (not (same_set (keys vectors.positions) (keys documents))) index_invariant

-- One turn of the loop over the stored documents.
check_stored : Dict Document → Document → Result (Unit {0})
check_stored documents document = elim (lookup document.document_id documents) [
  | none ↦ err index_invariant
  | some cached ↦ raise_if (not (cached.text =ₛ document.text)) index_invariant
]

module _ {fl : Float} {vs : Vectors fl} (cfg : Config vs) where
  -- validate
  unfoldable pub validate_engine : Act cfg (Unit {0})
  unfolding validate_with check_stored
  validate_engine = do
    index ← gets (λ e. e.index)
    documents ← gets (λ e. e.documents)
    vectors ← gets (λ e. e.vectors)
    generation ← gets (λ e. e.generation)
    lift (validate index)
    lift (raise_if (not (same_set (keys documents) (document_ids index))) index_invariant)
    lift (validate_with documents vectors)
    stored_generation ← with_store cfg store_generation
    lift (raise_if (not (stored_generation == generation)) index_invariant)
    stored_count ← with_store cfg store_count
    lift (raise_if (not (stored_count == length documents)) index_invariant)
    stored ← with_store cfg store_documents
    lift (for_each (check_stored documents) stored)

contains_all-of :
    (js ks : List Str)
    → ((k : Str) → contains k js ≡ true → contains k ks ≡ true)
    → contains_all js ks ≡ true
unfolding contains
contains_all-of [] ks h = refl
contains_all-of (j ∷ js) ks h =
    ground (arith, h j, =ₛ_refl j, contains_all-of js ks (λ k i. h k (ground arith)))

same_set-keys {ℓ κ} :
    {A : Type ℓ} {B : Type κ} (m : Dict A) (n : Dict B)
    → ((d : Str) → member d m ≡ member d n)
    → same_set (keys m) (keys n) ≡ true
same_set-keys m n h = ground (
  arith,
  contains_all-of (keys m) (keys n)
      (λ k i. sym (member-eq-contains k n) ∙ sym (h k) ∙ member-eq-contains k m ∙ i),
  contains_all-of (keys n) (keys m)
      (λ k i. sym (member-eq-contains k m) ∙ h k ∙ member-eq-contains k n ∙ i),
)

module _ {fl : Float} {vs : Vectors fl} (cfg : Config vs) (e : Engine vs) (y : InSync cfg e) where
  ids_agree : same_set (keys e.documents) (document_ids e.index) ≡ true
  ids_agree = same_set-keys e.documents e.index.document_lengths λ d.
      member-eq-is_some d e.documents
      ∙ sym (is_some-map (tokens_of cfg) (lookup d e.documents))
      ∙ ap is_some (sym (y.derived.analyzed d))
      ∙ sym (is_some-map length (lookup d y.derived.corpus))
      ∙ ap is_some (
          sym (lookup-map_values length d y.derived.corpus)
          ∙ ap (lookup d) (sym y.derived.indexed.lengths))
      ∙ sym (member-eq-is_some d e.index.document_lengths)

  counts_agree : Distinct (keys e.documents) → length e.store.rows ≡ length e.documents
  counts_agree u =
      let texts = map_values (λ (x : Document). x.text) e.documents in
      length-SameItems e.store.rows texts (record {
        left = y.keyed;
        right = subst Distinct (sym (keys-map_values (λ (x : Document). x.text) e.documents)) u;
        agree = λ d.
            y.derived.stored d ∙ sym (lookup-map_values (λ (x : Document). x.text) d e.documents);
      })
      ∙ length-map_values (λ (x : Document). x.text) e.documents

  row_agrees :
      (k : Str) (t : Str)
      → Option.map (λ x. x.text) (lookup k e.documents) ≡ some t
      → check_stored e.documents (document_of (k, t)) ≡ ok tt
  unfolding check_stored
  row_agrees k t h = elim (Option-cases (lookup k e.documents)) [
    | inl gone ↦ cc
    | inr (x, cached) ↦
        let same : x.text ≡ t =
          let g : Option.map (λ x. x.text) (some x) ≡ some t = rw cached at h in cc in
        rw (check_stored, cached, same, =ₛ_refl t)
  ]

  stored_agree :
      for_each (check_stored e.documents) (map document_of (sorted row_le e.store.rows)) ≡ ok tt
  unfolding check_stored
  stored_agree = for_each-ok (check_stored e.documents) _ (
      All-of_map (λ x. check_stored e.documents x ≡ ok tt) document_of (sorted row_le e.store.rows)
        (All-items _ (sorted row_le e.store.rows) (Distinct-sorted row_le e.store.rows y.keyed)
          (λ k t found. row_agrees k t (
            sym (y.derived.stored k) ∙ sym (lookup-sorted row_le k e.store.rows y.keyed) ∙ found))))

  -- An engine without semantic search that is in sync with its storage passes its own validation,
  -- where the storage answers and the document cache is a dictionary.
  pub validate_engine-ok :
      e.store.faults ≡ []
      → e.vectors ≡ none
      → Distinct (keys e.documents)
      → validate_engine cfg e ≡ (ok tt, e)
  unfolding validate_engine store_generation store_count store_documents attempt attempt_with
      validate_with
  validate_engine-ok quiet plain u =
      let valid = validate-ok e.index y.derived.corpus y.derived.indexed in
      rw (
        valid,
        ids_agree,
        plain,
        quiet,
        y.generation,
        ==_refl,
        counts_agree u,
        ==_refl,
        stored_agree,
      )
