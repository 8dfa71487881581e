-- ===== src/Examples.antt =====
-- Concrete data that the theorems are applied to.
pub mod Text
pub mod Indexes
pub mod Engines
pub mod Clusters
pub mod Parts
pub mod Wires
pub mod Reports
pub mod Public
pub mod Starting
pub mod Semantic
pub mod Replicas
pub mod Fusion
pub mod VectorRows
use pysearch.Base.{
  ℕ, ◌*◌, Str, Dict, Bool, true, false, ◌&&◌, Option, none, some, List, [], ◌∷◌, leb, codes,
}
use pysearch.Float.{Float, naturals}
use pysearch.Analysis.{Unicode}
use pysearch.Document.{Document}
use pysearch.Ranking.{Bm25Params}
use pysearch.VectorIndex.{Vectors}
use pysearch.Storage.{Store}
use pysearch.Engine.{Config}

-- Lower-case letters are the alphanumeric characters, and nothing is normalized.
abbrev pub ascii : Unicode
ascii = record {
  nfkc = λ text. text;
  casefold = λ text. text;
  isalnum = λ c. leb 97 c && leb c 122;
}

-- Vectors of one number.
abbrev pub numbers : Vectors naturals
numbers = record {
  V = ℕ;
  zero_row = 0;
  accepts = λ width v. true;
  is_unit = λ v. true;
  dot = λ v w. v * w;
}

abbrev pub params : Bm25Params naturals
params = record { k1 = 2; b = 1 }

-- An engine without semantic search.
abbrev pub lexical : Config numbers
lexical = record { unicode = ascii; params = params; embedder = none }

abbrev pub first_id : Str
first_id = codes "a"

abbrev pub second_id : Str
second_id = codes "b"

abbrev pub first_text : Str
first_text = codes "red fox, red hen"

abbrev pub second_text : Str
second_text = codes "old fox"

abbrev pub third : Document
third = record { document_id = codes "c"; text = codes "red hat" }

abbrev pub rewritten : Document
rewritten = record { document_id = first_id; text = codes "one more hen" }

-- Two rows at generation two, and a database that answers.
abbrev pub stored : Store
stored = record {
  rows = (first_id, first_text) ∷ (second_id, second_text) ∷ [];
  generation = 2;
  faults = [];
}
