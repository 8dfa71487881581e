-- ===== src/Index/Corpus.antt =====
-- What the index stands for: a corpus of token lists, in the order in which its documents were
-- added last.
use pysearch.Base.{
  ℕ, zero, suc, ◌+◌, Str, Dict, Option, none, some, List, [], ◌∷◌, ◌++◌, ◌≡◌, lookup, remove, keys,
  values, Distinct, length, sum, if◌then◌else◌, ◌=ₛ◌,
}
use pysearch.Index.{InvertedIndex, counter}

abbrev pub Corpus : Type 0
Corpus = Dict (List Str)

-- How often a token occurs.
unfoldable pub count : Str → List Str → ℕ
count term [] = 0
count term (token ∷ tokens) = (if token =ₛ term then 1 else 0) + count term tokens

-- A dictionary with its values mapped.
abbrev pub map_values {ℓ κ} : {V : Type ℓ} {W : Type κ} → (V → W) → Dict V → Dict W
map_values f [] = []
map_values f ((k, v) ∷ m) = (k, f v) ∷ map_values f m

-- The entry of a document in the column of a term.
abbrev pub entry : Str → ℕ → Dict ℕ
entry document_id zero = []
entry document_id (suc n) = (document_id, suc n) ∷ []

-- The documents that contain a term, with how often.
unfoldable pub column : Str → Corpus → Dict ℕ
column term [] = []
column term ((document_id, tokens) ∷ c) = entry document_id (count term tokens) ++ column term c

abbrev pub nonempty {ℓ} : {V : Type ℓ} → Dict V → Option (Dict V)
nonempty [] = none
nonempty (x ∷ m) = some (x ∷ m)

abbrev pub unique_terms : List Str → List Str
unique_terms tokens = keys (counter tokens)

-- The index holds exactly the statistics of the corpus: the posting list of every term is its
-- column, and no other posting list is there.
pub record Represents (index : InvertedIndex) (c : Corpus) : Type 0 where
  pub postings : (term : Str) → lookup term index.postings ≡ nonempty (column term c)
  pub terms : index.document_terms ≡ map_values unique_terms c
  pub lengths : index.document_lengths ≡ map_values length c
  pub total : index.total_length ≡ sum (values (map_values length c))
  pub documents : Distinct (keys c)
  pub vocabulary : Distinct (keys index.postings)

-- The corpus after a document was added or replaced.
abbrev pub with_document : Str → List Str → Corpus → Corpus
with_document document_id tokens c = remove document_id c ++ (document_id, tokens) ∷ []
