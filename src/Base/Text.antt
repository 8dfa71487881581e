-- ===== src/Base/Text.antt =====
-- Python strings as lists of code points: equality and the order that `sorted` uses.
use Prim.Native.Nat.{ℕ}
use Prim.Native.Char.{code}
use Prim.Native.String.{String}
use mathlib.Core.Path.{◌≡◌, refl}
use mathlib.Core.Logic.{◌↔◌}
use mathlib.Core.Bool.{Bool, true, false, ◌&&◌, ◌||◌, not}
use mathlib.Core.List.{List, [], ◌∷◌}
use native.Mathlib.Omega.{arith}
use pysearch.Base.Tests.{◌==◌, ltb}

abbrev pub Str : Type 0
Str = List ℕ

-- The code points of a text.
abbrev pub codes : String → Str
codes String.[] = []
codes (String.◌∷◌ c s) = code c ∷ codes s

infix 50 ◌=ₛ◌
unfoldable pub ◌=ₛ◌ : Str → Str → Bool
[] =ₛ [] = true
[] =ₛ (b ∷ t) = false
(a ∷ s) =ₛ [] = false
(a ∷ s) =ₛ (b ∷ t) = a == b && s =ₛ t

-- s < t, by code points.
unfoldable pub str_lt : Str → Str → Bool
str_lt s [] = false
str_lt [] (b ∷ t) = true
str_lt (a ∷ s) (b ∷ t) = ltb a b || (a == b && str_lt s t)

-- s <= t
unfoldable pub str_le : Str → Str → Bool
unfolding str_lt
str_le s t = not (str_lt t s)

pub =ₛ_iff : (s t : Str) → ((s =ₛ t) ≡ true) ↔ (s ≡ t)
unfolding ◌=ₛ◌
=ₛ_iff [] [] = ground arith
=ₛ_iff [] (b ∷ t) = ground arith
=ₛ_iff (a ∷ s) [] = ground arith
=ₛ_iff (a ∷ s) (b ∷ t) = ground (arith, =ₛ_iff s t)

pub =ₛ_refl : (s : Str) → (s =ₛ s) ≡ true
=ₛ_refl s = (=ₛ_iff s s).1 refl

pub str_lt_trans : (s t u : Str) → str_lt s t ≡ true → str_lt t u ≡ true → str_lt s u ≡ true
unfolding str_lt
str_lt_trans s [] u h k = ground arith
str_lt_trans s (b ∷ t) [] h k = ground arith
str_lt_trans [] (b ∷ t) (c ∷ u) h k = refl
str_lt_trans (a ∷ s) (b ∷ t) (c ∷ u) h k = ground (arith, str_lt_trans s t u)

pub str_lt_irrefl : (s : Str) → str_lt s s ≡ false
unfolding str_lt
str_lt_irrefl [] = refl
str_lt_irrefl (a ∷ s) = ground (arith, str_lt_irrefl s)

pub str_lt_connected : (s t : Str) → str_lt s t ≡ false → str_lt t s ≡ false → s ≡ t
unfolding str_lt
str_lt_connected [] [] h k = refl
str_lt_connected [] (b ∷ t) h k = ground arith
str_lt_connected (a ∷ s) [] h k = ground arith
str_lt_connected (a ∷ s) (b ∷ t) h k = ground (arith, str_lt_connected s t)
