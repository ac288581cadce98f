-- ===== src/Trader/Selection.antt =====
-- Which outputs the trader's wallet offers for the escrow (wallet/mod.rs, `get_escrow_psbt_inputs`).
use taptrade_core.Prelude.{
  ℕ, ◌+◌, ◌-◌, ◌^◌, ◌≤◌, ◌<◌, String, ◌≡◌, ◌⊎◌, refl, sym, ap, ◌∙◌, true, false, inl, inr, List, [],
  ◌∷◌, ◌++◌, map, ltb, ◌==◌, Bool-cases, if◌then◌else◌, arith,
}
use taptrade_core.Prelude.Result.{Result, ok, and_then, and_then-ok, ok-injective}
use taptrade_core.Sql.Rows.{All}
use taptrade_core.Trader.Settings.{TraderWallet, Utxo}
use taptrade_core.Trader.Inputs.{ℤ, pos, negsuc, as_i64, sub_i64, not_positive, select_utxos}
use taptrade_core.Errors.{AnyError}

abbrev pub total : List Utxo → ℕ
total [] = 0
total (u ∷ us) = u.txout_value + total us

abbrev pub chosen : Utxo × String → Utxo
chosen (u, hex) = u

abbrev pub ValueInI64 : Utxo → Type 0
ValueInI64 u = u.txout_value < 2 ^ 63

-- each output after the first is taken because those before it do not cover the amount
abbrev pub AllNeeded : ℕ → List Utxo → Type 0
AllNeeded n [] = Unit {0}
AllNeeded n (u ∷ []) = Unit {0}
AllNeeded n (u ∷ v ∷ us) = (u.txout_value < n) × AllNeeded (n - u.txout_value) (v ∷ us)

-- what is to be said of a selection for an amount
pub record Selection (n : ℕ) (available taken : List Utxo) : Type 0 where
  pub rest : List Utxo
  pub in_order : taken ++ rest ≡ available
  pub enough : (n ≤ total taken) ⊎ (rest ≡ [])
  pub needed : AllNeeded n taken

as_i64-pos : (n : ℕ) → n < 2 ^ 63 → as_i64 n ≡ pos n
as_i64-pos n h = ground arith

-- what is left after a smaller value, and after one that is enough
sub_smaller : (a v : ℕ) → a < 2 ^ 63 → v < a → sub_i64 (pos a) (pos v) ≡ ok (pos (a - v))
sub_smaller a v h k = ground arith

left_over : (a v : ℕ) → v < a → not_positive (pos (a - v)) ≡ false
left_over a v k = ground arith

sub_equal : (a v : ℕ) → a ≡ v → sub_i64 (pos a) (pos v) ≡ ok (pos 0)
sub_equal a v e = ground arith

sub_bigger : (a v : ℕ) → v < 2 ^ 63 → a < v → sub_i64 (pos a) (pos v) ≡ ok (negsuc (v - a - 1))
sub_bigger a v h k = ground arith

not_above : (a v : ℕ) → ltb v a ≡ false → (a ≡ v) ⊎ (a < v)
not_above a v h = elim (Bool-cases (a == v)) [
  | inl e ↦ inl (ground arith)
  | inr e ↦ inr (ground arith)
]

-- what is left, as an `i64`, when one more output is taken
data Left (n v : ℕ) (z : ℤ) : Type 0 where
  more : v < n → z ≡ as_i64 (n - v) → not_positive z ≡ false → Left n v z
  covered : n ≤ v → not_positive z ≡ true → Left n v z

subtracted-Left :
    (n v : ℕ) {z : ℤ} → n < 2 ^ 63 → v < 2 ^ 63 → sub_i64 (pos n) (pos v) ≡ ok z → Left n v z
subtracted-Left n v {z} hn hv e = elim (Bool-cases (ltb v n)) [
  | inl k ↦
      let below : v < n = ground arith in
      let same : pos (n - v) ≡ z = ok-injective (sym (sub_smaller n v hn below) ∙ e) in
      more below (sym same ∙ sym (as_i64-pos (n - v) (omega arith)))
        (rw (sym same) (left_over n v below))
  | inr k ↦ elim (not_above n v k) [
    | inl f ↦ covered (omega arith) (ended (sym (sub_equal n v f) ∙ e) refl)
    | inr f ↦ covered (omega arith) (ended (sym (sub_bigger n v hv f) ∙ e) refl)
  ]
]
  where
    ended :
        {y z : ℤ}
        → ◌≡◌ {A = Result AnyError ℤ} (ok y) (ok z)
        → not_positive y ≡ true
        → not_positive z ≡ true
    ended e p = rw (sym (ok-injective e)) p

AllNeeded-cons :
    (n : ℕ) (u : Utxo) (us : List Utxo)
    → u.txout_value < n
    → AllNeeded (n - u.txout_value) us
    → AllNeeded n (u ∷ us)
AllNeeded-cons n u [] h k = tt
AllNeeded-cons n u (v ∷ us) h k = (h, k)

Selection-one :
    (n : ℕ) (u : Utxo) (us : List Utxo) → n ≤ u.txout_value → Selection n (u ∷ us) (u ∷ [])
Selection-one n u us h = record {
  rest = us;
  in_order = refl;
  enough = inl (omega arith);
  needed = tt;
}

Selection-cons :
    (n : ℕ) (u : Utxo) (us taken : List Utxo)
    → u.txout_value < n
    → Selection (n - u.txout_value) us taken
    → Selection n (u ∷ us) (u ∷ taken)
Selection-cons n u us taken h s = record {
  rest = s.rest;
  in_order = ap (λ l. u ∷ l) s.in_order;
  enough = elim s.enough [ inl e ↦ inl (omega arith) | inr e ↦ inr e ];
  needed = AllNeeded-cons n u taken h s.needed;
}

module _ (w : TraderWallet) where
  -- what the loop does after a value has been subtracted
  abbrev go_on : Utxo → String → List Utxo → ℤ → Result AnyError (List (Utxo × String))
  go_on u hex us left =
      if not_positive left
      then ok ((u, hex) ∷ [])
      else and_then (select_utxos w left us) λ others. ok ((u, hex) ∷ others)

  go_on-Selection :
      (n : ℕ) (u : Utxo) (us : List Utxo) (hex : String) {z : ℤ} {inputs : List (Utxo × String)}
      → ((others : List (Utxo × String))
          → select_utxos w (as_i64 (n - u.txout_value)) us ≡ ok others
          → Selection (n - u.txout_value) us (map chosen others))
      → Left n u.txout_value z
      → go_on u hex us z ≡ ok inputs
      → Selection n (u ∷ us) (map chosen inputs)
  go_on-Selection n u us hex {z} rec (more below same positive) h =
      let (others, e, h1) =
        and_then-ok (select_utxos w z us) (λ others. ok ((u, hex) ∷ others)) (rw positive at h) in
      rw (sym (ok-injective h1))
        (Selection-cons n u us (map chosen others) below (rec others (rw same at e)))
  go_on-Selection n u us hex rec (covered above stops) h =
      rw (sym (ok-injective (rw stops at h))) (Selection-one n u us above)

  -- When the amount and the values of the unspent outputs are no negative `i64`, the selection, if
  -- it succeeds, takes the first of the unspent outputs, as many as are needed to cover the amount
  -- and no more, or all of them when they do not cover it.
  pub select_utxos-Selection :
      (n : ℕ) (available : List Utxo) {inputs : List (Utxo × String)}
      → n < 2 ^ 63
      → All ValueInI64 available
      → select_utxos w (as_i64 n) available ≡ ok inputs
      → Selection n available (map chosen inputs)
  unfolding select_utxos
  select_utxos-Selection n [] {inputs} hn hv h =
      rw (sym (ok-injective h))
        (record { rest = []; in_order = refl; enough = inr refl; needed = tt })
  select_utxos-Selection n (u ∷ us) {inputs} hn hv h =
      let (hex, _, h1) = and_then-ok (w.psbt_input_hex u) _ h in
      let (z, sub, h2) =
        and_then-ok (sub_i64 (as_i64 n) (as_i64 u.txout_value)) (go_on u hex us) h1 in
      go_on-Selection n u us hex
        (λ others e. select_utxos-Selection (n - u.txout_value) us (omega arith) hv.1 e)
        (left_from z sub) h2
    where
      left_from :
          (z : ℤ) → sub_i64 (as_i64 n) (as_i64 u.txout_value) ≡ ok z → Left n u.txout_value z
      left_from z sub =
          subtracted-Left n u.txout_value hn hv.0
            (rw (as_i64-pos n hn, as_i64-pos u.txout_value hv.0) at sub)
