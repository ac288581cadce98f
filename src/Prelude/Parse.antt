-- ===== src/Prelude/Parse.antt =====
-- `str::parse` into an unsigned integer of `w` bits, the comparison of a text's lower case, and
-- `str::trim`.
use Prim.Native.Char.{Char, code}
use Prim.Native.Nat.{ℕ, ◌+◌, ◌-◌, ◌*◌, ◌^◌, ◌<◌}
use Prim.Native.String.{String}
use mathlib.Core.Bool.{Bool, true, false, ◌&&◌, ◌||◌}
use mathlib.Core.Option.{Option, none, some}
use mathlib.Core.Path.{◌≡◌}
use native.Mathlib.Omega.{arith}
use taptrade_core.Prelude.Tests.{◌==◌, ltb, leb, if◌then◌else◌}

abbrev pub digit : Char → Option ℕ
digit c = if leb b'0' (code c) && leb (code c) b'9' then some (code c - b'0') else none

-- the number that goes on with the digits of the text
abbrev pub digits_from : ℕ → String → Option ℕ
digits_from n String.[] = some n
digits_from n (String.◌∷◌ c s) = elim (digit c) [
  | none ↦ none
  | some d ↦ digits_from (10 * n + d) s
]

abbrev pub without_sign : String → String
without_sign String.[] = String.[]
without_sign (String.◌∷◌ c s) = if code c == b'+' then s else String.◌∷◌ c s

abbrev pub digits : String → Option ℕ
digits String.[] = none
digits (String.◌∷◌ c s) = digits_from 0 (String.◌∷◌ c s)

abbrev pub if_fits : ℕ → Option ℕ → Option ℕ
if_fits w none = none
if_fits w (some n) = if ltb n (2 ^ w) then some n else none

-- A sign `+` may stand before at least one digit; a number that does not fit is refused.
unfoldable pub parse_unsigned : ℕ → String → Option ℕ
parse_unsigned w s = if_fits w (digits (without_sign s))

pub if_fits-bound : (w : ℕ) (o : Option ℕ) {n : ℕ} → if_fits w o ≡ some n → n < 2 ^ w
if_fits-bound w none h = cc
if_fits-bound w (some m) h = ground arith

pub parse_unsigned-bound : (w : ℕ) (s : String) {n : ℕ} → parse_unsigned w s ≡ some n → n < 2 ^ w
unfolding parse_unsigned
parse_unsigned-bound w s h = if_fits-bound w (digits (without_sign s)) h

-- The lower case of `A` to `Z`, and of the Kelvin sign, which is `k`. No other character has an
-- ASCII letter as its lower case.
abbrev pub lower : ℕ → ℕ
lower c = if leb b'A' c && leb c b'Z' then c + 32 else if c == 8490 then b'k' else c

-- `s.to_lowercase() == t` for a lower-case ASCII text `t`
unfoldable pub lower_eq : String → String → Bool
lower_eq String.[] String.[] = true
lower_eq (String.◌∷◌ c s) (String.◌∷◌ d t) = lower (code c) == code d && lower_eq s t
lower_eq _ _ = false

-- The Unicode property White_Space.
abbrev pub is_space : ℕ → Bool
is_space c =
    (leb 9 c && leb c 13)
    || (c == 32)
    || (c == 133)
    || (c == 160)
    || (c == 5760)
    || (leb 8192 c && leb c 8202)
    || (c == 8232)
    || (c == 8233)
    || (c == 8239)
    || (c == 8287)
    || (c == 12288)

-- the text with the character before it, unless this is space before nothing
abbrev pub before : Char → String → String
before c String.[] = if is_space (code c) then String.[] else String.◌∷◌ c String.[]
before c (String.◌∷◌ d s) = String.◌∷◌ c (String.◌∷◌ d s)

unfoldable pub trim_end : String → String
trim_end String.[] = String.[]
trim_end (String.◌∷◌ c s) = let rest = trim_end s in before c rest

unfoldable pub trim_start : String → String
trim_start String.[] = String.[]
trim_start (String.◌∷◌ c s) =
    let rest = trim_start s in if is_space (code c) then rest else String.◌∷◌ c s

-- `str::trim`
unfoldable pub trim : String → String
unfolding trim_end trim_start
trim s = trim_end (trim_start s)
