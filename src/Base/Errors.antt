-- ===== src/Base/Errors.antt =====
-- Exceptions (app/*/errors.py), and methods that change an object and may raise. The texts of the
-- messages are left out. What was written before a raise stays written.
use Prim.Native.Nat.{ℕ}
use mathlib.Core.Path.{◌≡◌, refl}
use mathlib.Core.Logic.{◌⊎◌, inl, inr}
use mathlib.Core.Bool.{Bool, true, false}
use mathlib.Core.List.{List, [], ◌∷◌}
use pysearch.Base.Lists.{All}

-- Each class of exception that the modelled code raises or distinguishes.
pub data Error : Type 0 where
  invalid_document document_not_found engine_not_ready index_invariant : Error
  storage_error embedding_error vector_index_error semantic_disabled : Error
  key_error value_error index_error : Error
  shard_unavailable shard_timeout replication_error : Error
  distributed_search : List ℕ → Error
  copies_exhausted : ℕ → Error

-- isinstance(error, ClusterError)
abbrev pub is_cluster_error : Error → Bool
is_cluster_error shard_unavailable = true
is_cluster_error shard_timeout = true
is_cluster_error replication_error = true
is_cluster_error (distributed_search _) = true
is_cluster_error (copies_exhausted _) = true
is_cluster_error _ = false

pub data Result {ℓ} (A : Type ℓ) : Type ℓ where
  ok : A → Result A
  err : Error → Result A

abbrev pub and_then {ℓ κ} : {A : Type ℓ} {B : Type κ} → Result A → (A → Result B) → Result B
and_then (ok a) f = f a
and_then (err e) f = err e

-- `if test: raise error`
abbrev pub raise_if : Bool → Error → Result (Unit {0})
raise_if true e = err e
raise_if false e = ok tt

-- A method on an object of type `S`.
abbrev pub Exec {ℓ κ} : Type ℓ → Type κ → Type (ℓ ⊔ κ)
Exec S A = S → Result A × S

abbrev pub continue {ℓ κ μ} :
    {S : Type ℓ} {A : Type κ} {B : Type μ} → Result A → (A → Exec S B) → S → Result B × S
continue (ok a) f s = f a s
continue (err e) f s = (err e, s)

infixl 5 ◌>>=◌ ◌>>◌
abbrev pub ◌>>=◌ {ℓ κ μ} :
    {S : Type ℓ} {A : Type κ} {B : Type μ} → Exec S A → (A → Exec S B) → Exec S B
◌>>=◌ m f s = let (r, s') = m s in continue r f s'

abbrev pub ◌>>◌ {ℓ κ μ} : {S : Type ℓ} {A : Type κ} {B : Type μ} → Exec S A → Exec S B → Exec S B
m >> k = m >>= λ _. k

module _ {ℓ κ} {S : Type ℓ} {A : Type κ} where
  abbrev pub pure : A → Exec S A
  pure a s = (ok a, s)

  abbrev pub raise : Error → Exec S A
  raise e s = (err e, s)

  abbrev pub lift : Result A → Exec S A
  lift r s = (r, s)

  abbrev pub gets : (S → A) → Exec S A
  gets f s = (ok (f s), s)

abbrev pub modify {ℓ} : {S : Type ℓ} → (S → S) → Exec S (Unit {0})
modify f s = (ok tt, f s)

-- A `for` loop whose body may raise.
unfoldable pub for_each {ℓ} : {A : Type ℓ} → (A → Result (Unit {0})) → List A → Result (Unit {0})
for_each f [] = ok tt
for_each f (x ∷ xs) = and_then (f x) (λ _. for_each f xs)

pub for_each-ok {ℓ} :
    {A : Type ℓ} (f : A → Result (Unit {0})) (xs : List A)
    → All (λ a. f a ≡ ok tt) xs
    → for_each f xs ≡ ok tt
unfolding for_each
for_each-ok f [] h = refl
for_each-ok f (x ∷ xs) h = rw h.0 (for_each-ok f xs h.1)

pub Result-cases {ℓ} :
    {A : Type ℓ} (r : Result A) → ((a : A) × (r ≡ ok a)) ⊎ ((e : Error) × (r ≡ err e))
Result-cases (ok a) = inl (a, refl)
Result-cases (err e) = inr (e, refl)
