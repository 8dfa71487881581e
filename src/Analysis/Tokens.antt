-- ===== src/Analysis/Tokens.antt =====
-- What the tokens of a text are.
use pysearch.Base.{
  ℕ, Str, ◌≡◌, ◌≢◌, refl, sym, ap, ◌∙◌, Bool, true, false, List, [], ◌∷◌, ◌++◌, All, if◌then◌else◌,
  Bool-cases, inl, inr,
}
use mathlib.Core.List.{append-nil, append_assoc}
use pysearch.Analysis.{Unicode, emit, tokenize_from, tokenize}

-- The characters of a text that pass a test, in their order.
abbrev pub kept : (ℕ → Bool) → Str → Str
kept p [] = []
kept p (c ∷ cs) = let rest = kept p cs in if p c then c ∷ rest else rest

abbrev pub joined : List Str → Str
joined [] = []
joined (t ∷ ts) = t ++ joined ts

joined-append : (ts us : List Str) → joined (ts ++ us) ≡ joined ts ++ joined us
joined-append [] us = refl
joined-append (t ∷ ts) us = simp (joined-append ts us, append_assoc)

-- A word: not empty, and alphanumeric throughout.
abbrev pub IsWord : (ℕ → Bool) → Str → Type 0
IsWord p t = (t ≢ []) × All (λ c. p c ≡ true) t

emit_word : (w : Str) → w ≢ [] → emit w [] ≡ w ∷ []
unfolding emit
emit_word [] h = absurd (h refl)
emit_word (c ∷ w) h = refl

module _ (p : ℕ → Bool) where
  joined-emit :
      (current : List ℕ) (tokens : List Str)
      → joined (emit current tokens) ≡ joined tokens ++ current
  unfolding emit
  joined-emit [] tokens = sym (append-nil _)
  joined-emit (c ∷ cs) tokens = simp (joined-append tokens, append-nil)

  joined-tokenize_from :
      (tokens : List Str) (current : List ℕ) (text : Str)
      → joined (tokenize_from p tokens current text) ≡ (joined tokens ++ current) ++ kept p text
  unfolding tokenize_from
  joined-tokenize_from tokens current [] = joined-emit current tokens ∙ sym (append-nil _)
  joined-tokenize_from tokens current (c ∷ text) = elim (Bool-cases (p c)) [
    | inl e ↦ rw e (joined-tokenize_from tokens (current ++ c ∷ []) text ∙ simp append_assoc)
    | inr e ↦
        rw e (joined-tokenize_from (emit current tokens) [] text ∙ simp (joined-emit, append-nil))
  ]

  All-append :
      (xs ys : Str)
      → All (λ c. p c ≡ true) xs
      → All (λ c. p c ≡ true) ys
      → All (λ c. p c ≡ true) (xs ++ ys)
  All-append [] ys h k = k
  All-append (x ∷ xs) ys h k = (h.0, All-append xs ys h.1 k)

  snoc_words :
      (ts : List Str) (t : Str) → All (IsWord p) ts → IsWord p t → All (IsWord p) (ts ++ t ∷ [])
  snoc_words [] t h k = (k, tt)
  snoc_words (u ∷ ts) t h k = (h.0, snoc_words ts t h.1 k)

  emit_words :
      (current : List ℕ) (tokens : List Str)
      → All (λ c. p c ≡ true) current
      → All (IsWord p) tokens
      → All (IsWord p) (emit current tokens)
  unfolding emit
  emit_words [] tokens h k = k
  emit_words (c ∷ cs) tokens h k = snoc_words tokens (c ∷ cs) k (λ e. cc, h)

  tokenize_from_words :
      (tokens : List Str) (current : List ℕ) (text : Str)
      → All (λ c. p c ≡ true) current
      → All (IsWord p) tokens
      → All (IsWord p) (tokenize_from p tokens current text)
  unfolding tokenize_from
  tokenize_from_words tokens current [] h k = emit_words current tokens h k
  tokenize_from_words tokens current (c ∷ text) h k = elim (Bool-cases (p c)) [
    | inl e ↦ rw e (
        tokenize_from_words tokens (current ++ c ∷ []) text (All-append current (c ∷ []) h (e, tt))
          k)
    | inr e ↦
        rw e (tokenize_from_words (emit current tokens) [] text tt (emit_words current tokens h k))
  ]

  emit-prefix :
      (current : List ℕ) (tokens : List Str) → emit current tokens ≡ tokens ++ emit current []
  unfolding emit
  emit-prefix [] tokens = sym (append-nil tokens)
  emit-prefix (c ∷ cs) tokens = refl

  tokenize_from-prefix :
      (tokens : List Str) (current : List ℕ) (text : Str)
      → tokenize_from p tokens current text ≡ tokens ++ tokenize_from p [] current text
  unfolding tokenize_from
  tokenize_from-prefix tokens current [] = emit-prefix current tokens
  tokenize_from-prefix tokens current (c ∷ text) = elim (Bool-cases (p c)) [
    | inl e ↦ rw e (tokenize_from-prefix tokens (current ++ c ∷ []) text)
    | inr e ↦ rw e (
        tokenize_from-prefix (emit current tokens) [] text
        ∙ ap (λ l. l ++ tokenize_from p [] [] text) (emit-prefix current tokens)
        ∙ append_assoc tokens (emit current []) (tokenize_from p [] [] text)
        ∙ ap (λ l. tokens ++ l) (sym (tokenize_from-prefix (emit current []) [] text)))
  ]

  tokenize_from-append :
      (current : List ℕ) (a : Str) (sep : ℕ) (b : Str)
      → p sep ≡ false
      → tokenize_from p [] current (a ++ sep ∷ b)
        ≡ tokenize_from p [] current a ++ tokenize_from p [] [] b
  unfolding tokenize_from
  tokenize_from-append current [] sep b h = rw h (tokenize_from-prefix (emit current []) [] b)
  tokenize_from-append current (c ∷ a) sep b h = elim (Bool-cases (p c)) [
    | inl e ↦ rw e (tokenize_from-append (current ++ c ∷ []) a sep b h)
    | inr e ↦ rw e (
        tokenize_from-prefix (emit current []) [] (a ++ sep ∷ b)
        ∙ ap (λ l. emit current [] ++ l) (tokenize_from-append [] a sep b h)
        ∙ sym (append_assoc (emit current []) _ _)
        ∙ ap (λ l. l ++ tokenize_from p [] [] b)
            (sym (tokenize_from-prefix (emit current []) [] a)))
  ]

  tokenize_from_word :
      (current : List ℕ) (w : Str)
      → All (λ c. p c ≡ true) w
      → tokenize_from p [] current w ≡ emit (current ++ w) []
  unfolding tokenize_from
  tokenize_from_word current [] h = rw append-nil
  tokenize_from_word current (c ∷ w) h =
      rw h.0 (tokenize_from_word (current ++ c ∷ []) w h.1 ∙ rw append_assoc)

module _ (u : Unicode) where
  -- Every token is a non-empty run of alphanumeric characters, and the tokens put together are
  -- exactly the alphanumeric characters of the text, in their order.
  tokenize_runs :
      (text : Str)
      → All (IsWord u.isalnum) (tokenize u text) × (joined (tokenize u text) ≡ kept u.isalnum text)
  unfolding tokenize
  tokenize_runs text =
      (tokenize_from_words u.isalnum [] [] text tt tt, joined-tokenize_from u.isalnum [] [] text)

  -- A character that is not alphanumeric separates: the tokens before it and the tokens after it
  -- are found independently. And a non-empty run of alphanumeric characters is one token.
  tokenize_maximal :
      (a w b : Str) (sep : ℕ)
      → IsWord u.isalnum w
      → u.isalnum sep ≡ false
      → (tokenize u (a ++ sep ∷ b) ≡ tokenize u a ++ tokenize u b) × (tokenize u w ≡ w ∷ [])
  unfolding tokenize
  tokenize_maximal a w b sep h e = (
    tokenize_from-append u.isalnum [] a sep b e,
    tokenize_from_word u.isalnum [] w h.1 ∙ emit_word w h.0,
  )

  -- Every token is a non-empty run of alphanumeric characters, and the tokens put together are
  -- exactly the alphanumeric characters of the text, in their order. A character that is not
  -- alphanumeric separates: the tokens before it and the tokens after it are found independently.
  -- And a non-empty run of alphanumeric characters is one token.
  pub tokenize_words :
      (text a w b : Str) (sep : ℕ)
      → IsWord u.isalnum w
      → u.isalnum sep ≡ false
      → All (IsWord u.isalnum) (tokenize u text)
        × (joined (tokenize u text) ≡ kept u.isalnum text)
        × (tokenize u (a ++ sep ∷ b) ≡ tokenize u a ++ tokenize u b)
        × (tokenize u w ≡ w ∷ [])
  tokenize_words text a w b sep h e =
      let (words, all_kept) = tokenize_runs text in
      let (apart, whole) = tokenize_maximal a w b sep h e in (words, all_kept, apart, whole)
