-- ===== src/Base/Rows.antt =====
-- Sorting the items of a dictionary keeps what it holds.
use mathlib.Core.Path.{◌≡◌, refl, ap, sym, ◌∙◌}
use mathlib.Core.Logic.{inl, inr}
use mathlib.Core.Bool.{Bool, true, false}
use mathlib.Core.Option.{some}
use mathlib.Core.List.{List, [], ◌∷◌}
use native.Mathlib.Omega.{arith}
use pysearch.Base.Tests.{if◌then◌else◌, Bool-cases}
use pysearch.Base.Text.{Str, ◌=ₛ◌, =ₛ_iff, str_le}
use pysearch.Base.Maps.{
  Dict, Distinct, contains, keys, lookup, member, member-eq-contains, lookup-cons, member-cons,
}
use pysearch.Base.Ranked.{insert, sorted}

module _ {ℓ} {V : Type ℓ} (le : Str × V → Str × V → Bool) where
  member-insert :
      (d k : Str) (v : V) (l : Dict V)
      → member d (insert le (k, v) l) ≡ (if k =ₛ d then true else member d l)
  unfolding insert
  member-insert d k v [] = member-cons d k v []
  member-insert d k v ((j, w) ∷ l) = elim (Bool-cases (le (k, v) (j, w))) [
    | inl e ↦ rw e (member-cons d k v ((j, w) ∷ l))
    | inr e ↦ rw e (
        ground (
          arith,
          member-cons d j w (insert le (k, v) l),
          member-cons d j w l,
          member-insert d k v l,
        ))
  ]

  lookup-insert :
      (d k : Str) (v : V) (l : Dict V)
      → member k l ≡ false
      → lookup d (insert le (k, v) l) ≡ (if k =ₛ d then some v else lookup d l)
  unfolding insert
  lookup-insert d k v [] h = lookup-cons d k v []
  lookup-insert d k v ((j, w) ∷ l) h = elim (Bool-cases (le (k, v) (j, w))) [
    | inl e ↦ rw e (lookup-cons d k v ((j, w) ∷ l))
    | inr e ↦ rw e (
        ground (
          arith,
          lookup-cons d j w (insert le (k, v) l),
          lookup-cons d j w l,
          member-cons k j w l,
          lookup-insert d k v l,
          =ₛ_iff j d,
          =ₛ_iff k d,
          =ₛ_iff j k,
        ))
  ]

  Distinct-insert :
      (k : Str) (v : V) (l : Dict V)
      → member k l ≡ false
      → Distinct (keys l)
      → Distinct (keys (insert le (k, v) l))
  unfolding insert
  Distinct-insert k v [] h d = (sym (member-eq-contains k []) ∙ h, tt)
  Distinct-insert k v ((j, w) ∷ l) h d = elim (Bool-cases (le (k, v) (j, w))) [
    | inl e ↦ rw e (sym (member-eq-contains k ((j, w) ∷ l)) ∙ h, d)
    | inr e ↦ rw e (
      ground (
        arith,
        member-eq-contains j (insert le (k, v) l),
        member-eq-contains j l,
        member-insert j k v l,
        member-cons k j w l,
        =ₛ_iff j k,
        =ₛ_iff k j,
      ),
      Distinct-insert k v l (ground (arith, member-cons k j w l)) d.1,
    )
  ]

  pub member-sorted : (d : Str) (m : Dict V) → member d (sorted le m) ≡ member d m
  unfolding sorted
  member-sorted d [] = refl
  member-sorted d ((k, v) ∷ m) =
      member-insert d k v (sorted le m)
      ∙ ap (λ b. if k =ₛ d then true else b) (member-sorted d m)
      ∙ sym (member-cons d k v m)

  absent_sorted :
      (k : Str) (m : Dict V) → contains k (keys m) ≡ false → member k (sorted le m) ≡ false
  absent_sorted k m h = member-sorted k m ∙ member-eq-contains k m ∙ h

  pub lookup-sorted :
      (d : Str) (m : Dict V) → Distinct (keys m) → lookup d (sorted le m) ≡ lookup d m
  unfolding sorted
  lookup-sorted d [] u = refl
  lookup-sorted d ((k, v) ∷ m) u =
      lookup-insert d k v (sorted le m) (absent_sorted k m u.0)
      ∙ ap (λ o. if k =ₛ d then some v else o) (lookup-sorted d m u.1)
      ∙ sym (lookup-cons d k v m)

  pub Distinct-sorted : (m : Dict V) → Distinct (keys m) → Distinct (keys (sorted le m))
  unfolding sorted
  Distinct-sorted [] u = tt
  Distinct-sorted ((k, v) ∷ m) u =
      Distinct-insert k v (sorted le m) (absent_sorted k m u.0) (Distinct-sorted m u.1)

contains-insert :
    (t u : Str) (l : List Str)
    → contains t (insert str_le u l) ≡ (if u =ₛ t then true else contains t l)
unfolding insert contains
contains-insert t u [] = refl
contains-insert t u (j ∷ l) = elim (Bool-cases (str_le u j)) [
  | inl e ↦ rw e
  | inr e ↦ rw e (ground (arith, contains-insert t u l))
]

pub contains-sorted : (t : Str) (l : List Str) → contains t (sorted str_le l) ≡ contains t l
unfolding sorted contains
contains-sorted t [] = refl
contains-sorted t (u ∷ l) =
    contains-insert t u (sorted str_le l)
    ∙ ap (λ b. if u =ₛ t then true else b) (contains-sorted t l)
