-- ===== src/Analysis.antt =====
-- app/search/analysis.py: normalization and tokenization. The Unicode tables behind NFKC, casefold
-- and isalnum are the parameter `Unicode`.
use pysearch.Base.{ℕ, Str, Bool, List, [], ◌∷◌, ◌++◌, if◌then◌else◌}
pub mod Tokens

-- The tables of Python's `unicodedata` and `str` that the analyzer consults.
pub record Unicode : Type 0 where
  pub nfkc : Str → Str
  pub casefold : Str → Str
  pub isalnum : ℕ → Bool

unfoldable pub normalize : Unicode → Str → Str
normalize u text = u.casefold (u.nfkc text)

-- `elif current:` and the final `if current:` both emit a token that is not empty.
emit : List ℕ → List Str → List Str
emit [] tokens = tokens
emit (c ∷ cs) tokens = tokens ++ (c ∷ cs) ∷ []

-- The `for` loop over the rest of the text, with the variables `tokens` and `current`.
tokenize_from : (ℕ → Bool) → List Str → List ℕ → Str → List Str
unfolding emit
tokenize_from isalnum tokens current [] = emit current tokens
tokenize_from isalnum tokens current (character ∷ text) =
    let longer = tokenize_from isalnum tokens (current ++ character ∷ []) text in
    let next = tokenize_from isalnum (emit current tokens) [] text in
    if isalnum character then longer else next

unfoldable pub tokenize : Unicode → Str → List Str
unfolding tokenize_from
tokenize u text = tokenize_from u.isalnum [] [] text

unfoldable pub analyze : Unicode → Str → List Str
unfolding normalize tokenize
analyze u text = tokenize u (normalize u text)
