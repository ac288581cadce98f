-- ===== src/Prelude/Word.antt =====
-- `u64` arithmetic of the debug build: an operation that leaves the range panics.
use taptrade_core.Prelude.{ℕ, ◌+◌, ◌-◌, ◌*◌, ◌^◌, ◌≡◌, ◌<◌, arith, ltb, leb, if◌then◌else◌}
use taptrade_core.Prelude.Result.{Result, ok, panic}

abbrev pub in_range : {E : Type 0} → ℕ → Result E ℕ
in_range n = if ltb n (2 ^ 64) then ok n else panic

abbrev pub add_u64 : {E : Type 0} → ℕ → ℕ → Result E ℕ
add_u64 a b = in_range (a + b)

abbrev pub mul_u64 : {E : Type 0} → ℕ → ℕ → Result E ℕ
mul_u64 a b = in_range (a * b)

abbrev pub sub_u64 : {E : Type 0} → ℕ → ℕ → Result E ℕ
sub_u64 a b = if leb b a then ok (a - b) else panic

pub in_range-ok : {E : Type 0} (n : ℕ) → n < 2 ^ 64 → in_range {E = E} n ≡ ok n
in_range-ok n h = ground arith

-- What a checked operation returns is the exact result.
pub in_range-inv : {E : Type 0} (n : ℕ) {m : ℕ} → in_range {E = E} n ≡ ok m → m ≡ n
in_range-inv n h = ground arith

pub sub_u64-inv : {E : Type 0} (a b : ℕ) {m : ℕ} → sub_u64 {E = E} a b ≡ ok m → m + b ≡ a
sub_u64-inv a b h = ground arith

pub in_range-bound : {E : Type 0} (n : ℕ) {m : ℕ} → in_range {E = E} n ≡ ok m → m < 2 ^ 64
in_range-bound n h = ground arith
