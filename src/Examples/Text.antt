-- ===== src/Examples/Text.antt =====
-- The analyzer, run.
use pysearch.Base.{◌≡◌, refl, [], ◌∷◌, ◌++◌, All, codes}
use pysearch.Analysis.{analyze, tokenize}
use pysearch.Analysis.Tokens.{IsWord, joined, kept, tokenize_words}
use pysearch.Examples.{ascii, first_text}

analyze_run : analyze ascii first_text ≡ codes "red" ∷ codes "fox" ∷ codes "red" ∷ codes "hen" ∷ []
unfolding analyze
analyze_run = refl

hen_IsWord : IsWord ascii.isalnum (codes "hen")
hen_IsWord = ((λ e. cc), (refl, (refl, (refl, tt))))

tokenize_words_example :
    All (IsWord ascii.isalnum) (tokenize ascii first_text)
    × (joined (tokenize ascii first_text) ≡ kept ascii.isalnum first_text)
    × (tokenize ascii (codes "hen" ++ 44 ∷ codes "old fox")
        ≡ tokenize ascii (codes "hen") ++ tokenize ascii (codes "old fox"))
    × (tokenize ascii (codes "hen") ≡ codes "hen" ∷ [])
tokenize_words_example =
    tokenize_words ascii first_text (codes "hen") (codes "hen") (codes "old fox") 44 hen_IsWord refl
