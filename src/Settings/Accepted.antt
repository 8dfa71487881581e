-- ===== src/Settings/Accepted.antt =====
-- What the checks on the settings of a coordinator establish.
use mathlib.Core.List.{append-nil}
use pysearch.Base.{
  ℕ, Str, Bool, true, false, not, List, [], ◌∷◌, ◌++◌, ◌≡◌, refl, length, concat_map, Distinct, All,
  ◌==◌, ==_iff, arith, Result, ok, err, and_then, raise_if, value_error,
}
use pysearch.Settings.{
  Settings, shard_addresses, replica_addresses, first_group, has_repeats, all_of_size, check_groups,
  check_coordinator,
}

-- What checks that did not raise say.
groups_passed :
    (counted even repeats : Bool)
    → and_then
        (raise_if (not counted) value_error)
        (λ _. and_then (raise_if (not even) value_error) λ _. raise_if repeats value_error)
      ≡ ok tt
    → (counted ≡ true) × (even ≡ true) × (repeats ≡ false)
groups_passed true true false h = (refl, refl, refl)
groups_passed true true true h = cc
groups_passed true false repeats h = cc
groups_passed false even repeats h = cc

addresses_passed :
    (empty counted repeats : Bool) (rest : Result (Unit {0}))
    → and_then (raise_if empty value_error) (λ _.
      and_then
        (raise_if (not counted) value_error)
        λ _. and_then (raise_if repeats value_error) λ _. rest)
      ≡ ok tt
    → (counted ≡ true) × (repeats ≡ false) × (rest ≡ ok tt)
addresses_passed false true false rest h = (refl, refl, h)
addresses_passed false true true rest h = cc
addresses_passed false false repeats rest h = cc
addresses_passed true counted repeats rest h = cc

pub settings_passed :
    (few : Bool) (rest : Result (Unit {0})) (settings : Settings)
    → and_then (raise_if few value_error) (λ _. and_then rest λ _. ok settings) ≡ ok settings
    → (few ≡ false) × (rest ≡ ok tt)
settings_passed false (ok _) settings h = (refl, refl)
settings_passed false (err error) settings h = cc
settings_passed true rest settings h = cc

no_repeats-Distinct : (xs : List Str) → has_repeats xs ≡ false → Distinct xs
no_repeats-Distinct [] h = tt
no_repeats-Distinct (x ∷ xs) h = (ground arith, no_repeats-Distinct xs (ground arith))

all_of_size-All :
    (n : ℕ) (groups : List (List Str))
    → all_of_size n groups ≡ true
    → All (λ g. length g ≡ n) groups
all_of_size-All n [] h = tt
all_of_size-All n (group ∷ groups) h =
    ((==_iff (length group) n).0 (ground arith), all_of_size-All n groups (ground arith))

pub no_groups :
    (groups : List (List Str)) → (length groups == 0) ≡ true → length (first_group groups) ≡ 0
no_groups [] h = refl
no_groups (group ∷ groups) h = absurd (ground arith)

-- What the checks on the addresses of a coordinator establish.
pub record Placed (shard_count : ℕ) (addresses : List Str) (groups : List (List Str)) : Type 0 where
  pub count : length addresses ≡ shard_count
  pub one_each : (length groups == 0) ≡ false → length groups ≡ shard_count
  pub even : All (λ g. length g ≡ length (first_group groups)) groups
  pub apart : Distinct (addresses ++ concat_map (λ g. g) groups)

check_groups-Placed :
    (shard_count : ℕ) (addresses : List Str) (groups : List (List Str))
    → length addresses ≡ shard_count
    → has_repeats addresses ≡ false
    → check_groups shard_count addresses groups ≡ ok tt
    → Placed shard_count addresses groups
check_groups-Placed shard_count addresses [] count once h = record {
  count = count;
  one_each = λ some. cc;
  even = tt;
  apart = rw (append-nil addresses) (no_repeats-Distinct addresses once);
}
check_groups-Placed shard_count addresses (group ∷ groups) count once h =
    let (counted, same, once_each) =
      groups_passed (length (group ∷ groups) == shard_count) (all_of_size (length group) groups)
        (has_repeats (addresses ++ concat_map (λ g. g) (group ∷ groups))) h in
    record {
      count = count;
      one_each = λ some. (==_iff _ _).0 counted;
      even = (refl, all_of_size-All (length group) groups same);
      apart = no_repeats-Distinct _ once_each;
    }

module _ (is_space : ℕ → Bool) where
  pub check_coordinator-Placed :
      (settings : Settings)
      → check_coordinator is_space settings ≡ ok tt
      → Placed settings.shard_count
          (shard_addresses is_space settings)
          (replica_addresses is_space settings)
  check_coordinator-Placed settings h =
      let addresses = shard_addresses is_space settings in
      let groups = replica_addresses is_space settings in
      let (counted, once, rest) =
        addresses_passed (length addresses == 0) (length addresses == settings.shard_count)
          (has_repeats addresses) (check_groups settings.shard_count addresses groups) h in
      check_groups-Placed settings.shard_count addresses groups ((==_iff _ _).0 counted) once rest
