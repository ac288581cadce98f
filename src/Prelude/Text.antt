-- ===== src/Prelude/Text.antt =====
-- Equality tests on texts and on byte strings.
use Prim.Native.Nat.{ℕ}
use Prim.Native.String.{String}
use mathlib.Core.Bool.{Bool, true, false, ◌&&◌, ◌||◌}
use mathlib.Core.List.{List, [], ◌∷◌}
use mathlib.Core.Logic.{◌↔◌}
use mathlib.Core.Path.{◌≡◌, refl}
use native.Mathlib.Omega.{arith}
use text.Mathlib.Text.{◌==◌ as str_beq}
use text.Mathlib.TextEquality.{eq_iff}
use taptrade_core.Prelude.Tests.{◌==◌}

-- `String == String`
unfoldable pub str_eq : String → String → Bool
str_eq s t = str_beq s t

pub str_eq_iff : (s t : String) → (str_eq s t ≡ true) ↔ (s ≡ t)
unfolding str_eq
str_eq_iff s t = eq_iff s t

pub str_eq_refl : (s : String) → str_eq s s ≡ true
str_eq_refl s = (str_eq_iff s s).1 refl

-- `Vec<u8>`
abbrev pub Bytes : Type 0
Bytes = List ℕ

-- `Vec<u8> == Vec<u8>`
unfoldable pub bytes_eq : Bytes → Bytes → Bool
bytes_eq [] [] = true
bytes_eq (a ∷ s) (b ∷ t) = a == b && bytes_eq s t
bytes_eq _ _ = false

pub bytes_eq_iff : (s t : Bytes) → (bytes_eq s t ≡ true) ↔ (s ≡ t)
unfolding bytes_eq
bytes_eq_iff [] [] = ground arith
bytes_eq_iff [] (b ∷ t) = ground arith
bytes_eq_iff (a ∷ s) [] = ground arith
bytes_eq_iff (a ∷ s) (b ∷ t) = ground (arith, bytes_eq_iff s t)

pub bytes_eq_refl : (s : Bytes) → bytes_eq s s ≡ true
bytes_eq_refl s = (bytes_eq_iff s s).1 refl

-- `contains` of a list of texts
abbrev pub contains : String → List String → Bool
contains t [] = false
contains t (s ∷ ss) = str_eq s t || contains t ss
