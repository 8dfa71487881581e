-- ===== src/Base/Maps.antt =====
-- Python's `dict` with string keys, as an association list in insertion order.
use mathlib.Core.Path.{◌≡◌, refl}
use mathlib.Core.Bool.{Bool, true, false}
use mathlib.Core.Option
use mathlib.Core.Option.{Option, none, some}
use mathlib.Core.Option
use mathlib.Core.List.{List, [], ◌∷◌, ◌++◌}
use native.Mathlib.Omega.{arith}
use mathlib.Core.Logic.{inl, inr}
use pysearch.Base.Tests.{if◌then◌else◌, Bool-cases}
use pysearch.Base.Lists.{All}
use pysearch.Base.Text.{Str, ◌=ₛ◌, =ₛ_iff, =ₛ_refl}

abbrev pub Dict {ℓ} : Type ℓ → Type ℓ
Dict V = List (Str × V)

-- k in ks, for a list or a frozenset of strings
unfoldable pub contains : Str → List Str → Bool
contains k [] = false
contains k (j ∷ ks) = if j =ₛ k then true else contains k ks

-- No string occurs twice.
abbrev pub Distinct : List Str → Type 0
Distinct [] = Unit
Distinct (k ∷ ks) = (contains k ks ≡ false) × Distinct ks

abbrev pub is_some {ℓ} : {V : Type ℓ} → Option V → Bool
is_some none = false
is_some (some v) = true

module _ {ℓ} {V : Type ℓ} where
  abbrev pub keys : Dict V → List Str
  keys [] = []
  keys ((k, v) ∷ m) = k ∷ keys m

  -- m.values()
  abbrev pub values : Dict V → List V
  values [] = []
  values ((k, v) ∷ m) = v ∷ values m

  -- m.get(k)
  unfoldable pub lookup : Str → Dict V → Option V
  lookup k [] = none
  lookup k ((j, v) ∷ m) = if j =ₛ k then some v else lookup k m

  -- k in m
  unfoldable pub member : Str → Dict V → Bool
  member k [] = false
  member k ((j, v) ∷ m) = if j =ₛ k then true else member k m

  -- m[k] = v: an old key keeps its place, a new one is last.
  unfoldable pub put : Str → V → Dict V → Dict V
  put k v [] = (k, v) ∷ []
  put k v ((j, w) ∷ m) = let rest = put k v m in if j =ₛ k then (k, v) ∷ m else (j, w) ∷ rest

  -- m.pop(k, None)
  unfoldable pub remove : Str → Dict V → Dict V
  remove k [] = []
  remove k ((j, w) ∷ m) = let rest = remove k m in if j =ₛ k then rest else (j, w) ∷ rest

  -- One step of each walk.
  pub lookup-cons :
      (k j : Str) (v : V) (m : Dict V)
      → lookup k ((j, v) ∷ m) ≡ (if j =ₛ k then some v else lookup k m)
  unfolding lookup
  lookup-cons k j v m = refl

  pub member-cons :
      (k j : Str) (v : V) (m : Dict V)
      → member k ((j, v) ∷ m) ≡ (if j =ₛ k then true else member k m)
  unfolding member
  member-cons k j v m = refl

  pub remove-cons :
      (k j : Str) (v : V) (m : Dict V)
      → remove k ((j, v) ∷ m) ≡ (if j =ₛ k then remove k m else (j, v) ∷ remove k m)
  unfolding remove
  remove-cons k j v m = refl

  pub lookup-put :
      (k j : Str) (v : V) (m : Dict V)
      → lookup j (put k v m) ≡ (if k =ₛ j then some v else lookup j m)
  unfolding lookup put
  lookup-put k j v [] = refl
  lookup-put k j v ((i, w) ∷ m) =
      ground (arith, =ₛ_iff k j, =ₛ_iff i k, =ₛ_iff i j, lookup-put k j v m)

  pub lookup-remove :
      (k j : Str) (m : Dict V) → lookup j (remove k m) ≡ (if k =ₛ j then none else lookup j m)
  unfolding lookup remove
  lookup-remove k j [] = ground arith
  lookup-remove k j ((i, w) ∷ m) =
      ground (arith, =ₛ_iff k j, =ₛ_iff i k, =ₛ_iff i j, lookup-remove k j m)

  pub member-put :
      (k j : Str) (v : V) (m : Dict V)
      → member j (put k v m) ≡ (if k =ₛ j then true else member j m)
  unfolding member put
  member-put k j v [] = refl
  member-put k j v ((i, w) ∷ m) =
      ground (arith, =ₛ_iff k j, =ₛ_iff i k, =ₛ_iff i j, member-put k j v m)

  pub member-remove :
      (k j : Str) (m : Dict V) → member j (remove k m) ≡ (if k =ₛ j then false else member j m)
  unfolding member remove
  member-remove k j [] = ground arith
  member-remove k j ((i, w) ∷ m) =
      ground (arith, =ₛ_iff k j, =ₛ_iff i k, =ₛ_iff i j, member-remove k j m)

  pub member-eq-contains : (k : Str) (m : Dict V) → member k m ≡ contains k (keys m)
  unfolding member contains
  member-eq-contains k [] = refl
  member-eq-contains k ((j, v) ∷ m) = ground (arith, member-eq-contains k m)

  pub member-eq-is_some : (k : Str) (m : Dict V) → member k m ≡ is_some (lookup k m)
  unfolding member lookup
  member-eq-is_some k [] = refl
  member-eq-is_some k ((j, v) ∷ m) = ground (arith, member-eq-is_some k m)

  pub lookup_absent : (k : Str) (m : Dict V) → member k m ≡ false → lookup k m ≡ none
  unfolding member lookup
  lookup_absent k [] h = refl
  lookup_absent k ((j, v) ∷ m) h = ground (arith, lookup_absent k m)

  pub lookup_present : (k : Str) (m : Dict V) → member k m ≡ true → (v : V) × (lookup k m ≡ some v)
  unfolding member lookup
  lookup_present k [] h = cc
  lookup_present k ((j, v) ∷ m) h = elim (Bool-cases (j =ₛ k)) [
    | inl e ↦ (v, rw e)
    | inr e ↦ let (w, p) = lookup_present k m (ground arith) in (w, rw e p)
  ]

  pub member_of_lookup : (k : Str) (m : Dict V) (v : V) → lookup k m ≡ some v → member k m ≡ true
  unfolding member lookup
  member_of_lookup k [] v h = cc
  member_of_lookup k ((j, w) ∷ m) v h = ground (arith, member_of_lookup k m v)

  pub put_absent :
      (k : Str) (v : V) (m : Dict V) → member k m ≡ false → put k v m ≡ m ++ (k, v) ∷ []
  unfolding member put
  put_absent k v [] h = refl
  put_absent k v ((j, w) ∷ m) h = ground (arith, put_absent k v m)

  pub remove_absent : (k : Str) (m : Dict V) → member k m ≡ false → remove k m ≡ m
  unfolding member remove
  remove_absent k [] h = refl
  remove_absent k ((j, w) ∷ m) h = ground (arith, remove_absent k m)

  pub remove-append : (k : Str) (m n : Dict V) → remove k (m ++ n) ≡ remove k m ++ remove k n
  unfolding remove
  remove-append k [] n = refl
  remove-append k ((j, w) ∷ m) n = ground (arith, remove-append k m n)

  pub member-append :
      (k : Str) (m n : Dict V) → member k (m ++ n) ≡ (if member k m then true else member k n)
  unfolding member
  member-append k [] n = refl
  member-append k ((j, w) ∷ m) n = ground (arith, member-append k m n)

  abbrev pub or_else : Option V → Option V → Option V
  or_else none o = o
  or_else (some v) o = some v

  pub or_else-none : (o : Option V) → or_else o none ≡ o
  or_else-none none = refl
  or_else-none (some v) = refl

  pub lookup-append :
      (k : Str) (m n : Dict V) → lookup k (m ++ n) ≡ or_else (lookup k m) (lookup k n)
  unfolding lookup
  lookup-append k [] n = refl
  lookup-append k ((j, w) ∷ m) n = elim (Bool-cases (j =ₛ k)) [
    | inl e ↦ rw e
    | inr e ↦ rw e (lookup-append k m n)
  ]

  pub lookup-append_absent :
      (k : Str) (m n : Dict V) → member k m ≡ false → lookup k (m ++ n) ≡ lookup k n
  unfolding lookup member
  lookup-append_absent k [] n h = refl
  lookup-append_absent k ((j, w) ∷ m) n h = ground (arith, lookup-append_absent k m n)

  pub Distinct-put :
      (k : Str) (v : V) (m : Dict V) → Distinct (keys m) → Distinct (keys (put k v m))
  unfolding put contains
  Distinct-put k v [] h = (refl, tt)
  Distinct-put k v ((j, w) ∷ m) h = ground (
    arith,
    =ₛ_iff j k,
    =ₛ_iff k j,
    Distinct-put k v m,
    member-put k j v m,
    member-eq-contains j m,
    member-eq-contains j (put k v m),
  )

  pub Distinct-remove : (k : Str) (m : Dict V) → Distinct (keys m) → Distinct (keys (remove k m))
  unfolding remove contains
  Distinct-remove k [] h = tt
  Distinct-remove k ((j, w) ∷ m) h = ground (
    arith,
    =ₛ_iff j k,
    =ₛ_iff k j,
    Distinct-remove k m,
    member-remove k j m,
    member-eq-contains j m,
    member-eq-contains j (remove k m),
  )

  -- What holds of every entry that a lookup finds holds of every entry.
  pub All-items {κ} :
      (P : Str × V → Type κ) (m : Dict V)
      → Distinct (keys m)
      → ((k : Str) (v : V) → lookup k m ≡ some v → P (k, v))
      → All P m
  All-items P [] d f = tt
  All-items P ((k, v) ∷ m) d f = (
    f k v (rw (lookup-cons, =ₛ_refl)),
    All-items P m d.1 λ j w h. f j w (
        ground
          (arith, lookup-cons j k v m, =ₛ_iff k j, member-eq-contains k m, member_of_lookup j m w)),
  )

-- What holds of every string that `contains` finds holds of every element.
pub All-of_contains {κ} :
    (P : Str → Type κ) (ts : List Str) → ((t : Str) → contains t ts ≡ true → P t) → All P ts
unfolding contains
All-of_contains P [] f = tt
All-of_contains P (t ∷ ts) f =
    (f t (rw =ₛ_refl), All-of_contains P ts (λ u h. f u (ground (arith, =ₛ_iff t u))))

-- A function goes through a stored value.
pub map-if_some {ℓ κ} :
    {A : Type ℓ} {B : Type κ} (f : A → B) (b : Bool) (x : A) (o : Option A) (p : Option B)
    → p ≡ Option.map f o
    → (if b then some (f x) else p) ≡ Option.map f (if b then some x else o)
map-if_some f true x o p e = refl
map-if_some f false x o p e = e

pub map-if_none {ℓ κ} :
    {A : Type ℓ} {B : Type κ} (f : A → B) (b : Bool) (o : Option A) (p : Option B)
    → p ≡ Option.map f o
    → (if b then none else p) ≡ Option.map f (if b then none else o)
map-if_none f true o p e = refl
map-if_none f false o p e = e

pub is_some-map {ℓ κ} :
    {A : Type ℓ} {B : Type κ} (f : A → B) (o : Option A) → is_some (Option.map f o) ≡ is_some o
is_some-map f none = refl
is_some-map f (some a) = refl
