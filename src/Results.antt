-- ===== src/Results.antt =====
-- app/search/results.py and the order of every ranked list: score descending, then document id
-- ascending. The engine, the vector index, the coordinator's merge and the fusion sort by it.
pub mod Order
use pysearch.Base.{ℕ, Str, Bool, not, ◌&&◌, ◌||◌, List, str_lt, length, take, sorted}
use pysearch.Float.{Float}

pub record SearchResult (F : Type 0) : Type 0 where
  pub document_id : Str
  pub score : F
  pub text : Str

pub record SearchResults (F : Type 0) : Type 0 where
  pub total : ℕ
  pub results : List (SearchResult F)

module _ (fl : Float) where
  -- (-score, id) < (-score', id'), as tuples compare.
  unfoldable pub ranks_before : fl.F → Str → fl.F → Str → Bool
  ranks_before score id score' id' =
      fl.lt score' score || (not (fl.lt score score') && str_lt id id')

  -- key(a) <= key(b)
  unfoldable pub hit_le : SearchResult fl.F → SearchResult fl.F → Bool
  unfolding ranks_before
  hit_le a b = not (ranks_before b.score b.document_id a.score a.document_id)

  -- The same order on the items of a dictionary of scores.
  unfoldable pub item_le : Str × fl.F → Str × fl.F → Bool
  unfolding ranks_before
  item_le a b = not (ranks_before b.1 b.0 a.1 a.0)

  -- The answer to a query: how many results there are, and the best of them.
  abbrev pub top : ℕ → List (SearchResult fl.F) → SearchResults fl.F
  top limit hits = record { total = length hits; results = take limit (sorted hit_le hits) }
