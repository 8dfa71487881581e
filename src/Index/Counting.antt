-- ===== src/Index/Counting.antt =====
-- `Counter` counts: its entries are the counts, its keys are the tokens, and they sum to the length.
use pysearch.Base.{
  ℕ, zero, suc, ◌+◌, Str, Dict, Option, none, some, List, [], ◌∷◌, ◌≡◌, refl, ap, ◌∙◌, lookup, put,
  keys, values, Distinct, Distinct-put, length, sum, if◌then◌else◌, ◌=ₛ◌, =ₛ_iff, arith, lookup-put,
  =ₛ_refl, Bool-cases, inl, inr,
}
use pysearch.Index.{or_zero, counter, count_into}
use pysearch.Index.Corpus.{count}

-- A count as an entry of a `Counter`: there is none for zero.
abbrev pub positive : ℕ → Option ℕ
positive zero = none
positive (suc n) = some (suc n)

pub or_zero-positive : (n : ℕ) → or_zero (positive n) ≡ n
or_zero-positive zero = refl
or_zero-positive (suc n) = refl

-- One more occurrence in the `Counter`.
lookup-put_next :
    (term token : Str) (counts : Dict ℕ) (n : ℕ)
    → lookup term counts ≡ positive n
    → lookup term (put token (or_zero (lookup token counts) + 1) counts)
      ≡ positive (n + (if token =ₛ term then 1 else 0))
lookup-put_next term token counts n h = elim (Bool-cases (token =ₛ term)) [
  | inl e ↦
      rw ((=ₛ_iff token term).0 e) (rw (lookup-put, =ₛ_refl, h, or_zero-positive) (ground arith))
  | inr e ↦ rw (lookup-put, e, h) (ap positive (omega arith))
]

lookup-count_into :
    (term : Str) (tokens : List Str) (counts : Dict ℕ) (n : ℕ)
    → lookup term counts ≡ positive n
    → lookup term (count_into counts tokens) ≡ positive (n + count term tokens)
unfolding count_into count
lookup-count_into term [] counts n h = h ∙ ap positive (omega arith)
lookup-count_into term (token ∷ tokens) counts n h =
    lookup-count_into term tokens (put token (or_zero (lookup token counts) + 1) counts)
      (n + (if token =ₛ term then 1 else 0)) (lookup-put_next term token counts n h)
    ∙ ap positive (omega arith)

pub lookup-counter :
    (term : Str) (tokens : List Str) → lookup term (counter tokens) ≡ positive (count term tokens)
unfolding counter lookup
lookup-counter term tokens = lookup-count_into term tokens [] 0 refl ∙ ap positive (omega arith)

Distinct-count_into :
    (tokens : List Str) (counts : Dict ℕ)
    → Distinct (keys counts)
    → Distinct (keys (count_into counts tokens))
unfolding count_into
Distinct-count_into [] counts h = h
Distinct-count_into (token ∷ tokens) counts h =
    Distinct-count_into tokens (put token (or_zero (lookup token counts) + 1) counts)
      (Distinct-put token _ counts h)

pub Distinct-counter : (tokens : List Str) → Distinct (keys (counter tokens))
unfolding counter
Distinct-counter tokens = Distinct-count_into tokens [] tt

sum-put_next :
    (k : Str) (m : Dict ℕ) → sum (values (put k (or_zero (lookup k m) + 1) m)) ≡ sum (values m) + 1
unfolding put lookup
sum-put_next k [] = refl
sum-put_next k ((j, n) ∷ m) = ground (arith, sum-put_next k m)

sum-count_into :
    (tokens : List Str) (counts : Dict ℕ)
    → sum (values (count_into counts tokens)) ≡ sum (values counts) + length tokens
unfolding count_into
sum-count_into [] counts = omega arith
sum-count_into (token ∷ tokens) counts = omega (
  arith,
  sum-count_into tokens (put token (or_zero (lookup token counts) + 1) counts),
  sum-put_next token counts,
)

pub sum-counter : (tokens : List Str) → sum (values (counter tokens)) ≡ length tokens
unfolding counter
sum-counter tokens = omega (arith, sum-count_into tokens [])
