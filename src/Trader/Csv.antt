-- ===== src/Trader/Csv.antt =====
-- The inputs that a trader sends, as the coordinator reads them (the trader's wallet/mod.rs,
-- `get_escrow_psbt_inputs`, and the coordinator's wallet/wallet_utils.rs, `csv_hex_to_bdk_input`).
use Prim.Native.Char.{Char, code}
use Prim.Native.String.{◌++◌ as append}
use Prim.Native.String.append
use taptrade_core.Prelude.{
  ℕ, String, ◌≡◌, ◌≢◌, refl, sym, ◌∙◌, ap, Bool, true, false, ◌&&◌, not, ◌==◌, some, List, [], ◌∷◌,
  inl, inr, map, Bool-cases, Bytes,
}
use mathlib.Core.Path.{subst}
use taptrade_core.Prelude.Result.{ok, and_then-ok, ok-injective}
use taptrade_core.Externals.{Externals}
use taptrade_core.Types.{PsbtInput}
use taptrade_core.Sql.Rows.{All}
use taptrade_core.Wallet.Inputs.{split_comma, parse_inputs, csv_hex_to_bdk_input}
use taptrade_core.Trader.Settings.{TraderWallet, Utxo}
use taptrade_core.Trader.Inputs.{
  join_comma, input_hex, as_i64, select_utxos, get_escrow_psbt_inputs, sub_i64, not_positive, ℤ,
}

abbrev pub no_comma : String → Bool
no_comma String.[] = true
no_comma (String.◌∷◌ c s) = not (code c == b',') && no_comma s

no_comma-head : (b d : Bool) → (not b && d) ≡ true → (b ≡ false) × (d ≡ true)
no_comma-head true d h = cc
no_comma-head false d h = (refl, h)

append_nil : (t : String) → append String.[] t ≡ t
append_nil t = λ i. append.nil t i

append_cons : (c : Char) (s t : String) → append (String.◌∷◌ c s) t ≡ String.◌∷◌ c (append s t)
append_cons c s t = λ i. append.cons c s t i

comma : (t : String) → split_comma (append "," t) ≡ String.[] ∷ split_comma t
unfolding split_comma
comma t = rw (append_cons "," String.[] t) (rw (append_nil t) refl)

split-piece :
    (s t : String) → no_comma s ≡ true → split_comma (append s (append "," t)) ≡ s ∷ split_comma t
unfolding split_comma
split-piece String.[] t h = rw (append_nil (append "," t)) (comma t)
split-piece (String.◌∷◌ c s) t h =
    let (here, rest) = no_comma-head (code c == b',') (no_comma s) h in
    rw (append_cons c s (append "," t)) (rw here (rw (split-piece s t rest) refl))

split-last : (s : String) → no_comma s ≡ true → split_comma s ≡ s ∷ []
unfolding split_comma
split-last String.[] h = refl
split-last (String.◌∷◌ c s) h =
    let (here, rest) = no_comma-head (code c == b',') (no_comma s) h in
    rw here (rw (split-last s rest) refl)

-- Pieces without commas are what the joined text is split into.
split_comma-join_comma :
    (s : String) (ss : List String)
    → All (λ t. no_comma t ≡ true) (s ∷ ss)
    → split_comma (join_comma (s ∷ ss)) ≡ s ∷ ss
unfolding join_comma
split_comma-join_comma s [] a = split-last s a.0
split_comma-join_comma s (t ∷ ss) a =
    rw (split-piece s (join_comma (t ∷ ss)) a.0) (ap (λ l. s ∷ l) (split_comma-join_comma t ss a.1))

-- What the trader's `hex::encode` and `bincode::serialize` of an input give, the coordinator's
-- `hex::decode` and `bincode::deserialize` read, and the hex text has no comma.
pub record SameCodec (x : Externals) (w : TraderWallet) (input_of : Utxo → PsbtInput) : Type 0 where
  pub reads :
      (u : Utxo) (hex : String)
      → w.psbt_input_hex u ≡ ok hex
      → (no_comma hex ≡ true)
        × ((b : Bytes) × (x.hex_decode hex ≡ some b) × (x.psbt_input b ≡ some (input_of u)))

module _ (x : Externals) (w : TraderWallet) (input_of : Utxo → PsbtInput)
    (same : SameCodec x w input_of) where
  abbrev Encoded : Utxo × String → Type 0
  Encoded p = w.psbt_input_hex p.0 ≡ ok p.1

  abbrev read_input : Utxo × String → PsbtInput
  read_input p = input_of p.0

  select_utxos-Encoded :
      (amount : ℤ) (us : List Utxo) {sel : List (Utxo × String)}
      → select_utxos w amount us ≡ ok sel
      → All Encoded sel
  unfolding select_utxos
  select_utxos-Encoded amount [] h = rw (sym (ok-injective h)) tt
  select_utxos-Encoded amount (u ∷ us) h =
      let (hex, e, h1) = and_then-ok (w.psbt_input_hex u) _ h in
      let (left, _, h2) = and_then-ok (sub_i64 amount (as_i64 u.txout_value)) _ h1 in
      elim (Bool-cases (not_positive left)) [
        | inl enough ↦ rw (sym (ok-injective (rw enough at h2))) (e, tt)
        | inr more ↦
            let (others, k, h3) = and_then-ok (select_utxos w left us) _ (rw more at h2) in
            rw (sym (ok-injective h3)) (e, select_utxos-Encoded left us k)
      ]

  select_utxos-ne-nil :
      (amount : ℤ) (u : Utxo) (us : List Utxo) → select_utxos w amount (u ∷ us) ≢ ok []
  unfolding select_utxos
  select_utxos-ne-nil amount u us h =
      let (hex, e, h1) = and_then-ok (w.psbt_input_hex u) _ h in
      let (left, _, h2) = and_then-ok (sub_i64 amount (as_i64 u.txout_value)) _ h1 in
      elim (Bool-cases (not_positive left)) [
        | inl enough ↦ cc (ok-injective (rw enough at h2))
        | inr more ↦
            let (others, k, h3) = and_then-ok (select_utxos w left us) _ (rw more at h2) in
            cc (ok-injective h3)
      ]

  All-no_comma :
      (sel : List (Utxo × String))
      → All Encoded sel
      → All (λ t. no_comma t ≡ true) (map input_hex sel)
  All-no_comma [] a = tt
  All-no_comma ((u, hex) ∷ sel) a = ((same.reads u hex a.0).0, All-no_comma sel a.1)

  parse_inputs-read :
      (sel : List (Utxo × String))
      → All Encoded sel
      → parse_inputs x (map input_hex sel) ≡ ok (map read_input sel)
  unfolding parse_inputs
  parse_inputs-read [] a = refl
  parse_inputs-read ((u, hex) ∷ sel) a =
      let (_, (b, decoded, read)) = same.reads u hex a.0 in
      rw (decoded, read, parse_inputs-read sel a.1) refl

  -- A selection that is not empty is read by the coordinator as it was made.
  joined-read :
      (sel : List (Utxo × String)) (p : Utxo × String)
      → All Encoded (p ∷ sel)
      → csv_hex_to_bdk_input x (join_comma (map input_hex (p ∷ sel)))
        ≡ ok (map read_input (p ∷ sel))
  unfolding csv_hex_to_bdk_input
  joined-read sel p a =
      rw (split_comma-join_comma (input_hex p) (map input_hex sel) (All-no_comma (p ∷ sel) a))
        (rw (parse_inputs-read (p ∷ sel) a) refl)

  -- When the trader's wallet has an unspent output and its inputs can be collected for an amount, the
  -- coordinator reads from the text that the trader sends exactly the inputs of the selected outputs,
  -- in their order. The two sides have to use one encoding of an input, in hex.
  pub get_escrow_psbt_inputs-csv :
      (amount : ℕ) (u : Utxo) (us : List Utxo) {csv change : String}
      → w.list_unspent ≡ ok (u ∷ us)
      → get_escrow_psbt_inputs w amount ≡ ok (csv, change)
      → (sel : List (Utxo × String)) × (select_utxos w (as_i64 amount) (u ∷ us) ≡ ok sel)
        × (csv_hex_to_bdk_input x csv ≡ ok (map read_input sel))
  unfolding get_escrow_psbt_inputs
  get_escrow_psbt_inputs-csv amount u us {csv} {change} listed h =
      let (us', l, h1) = and_then-ok w.list_unspent _ h in
      let (sel, s, h2) = and_then-ok (select_utxos w (as_i64 amount) us') _ h1 in
      let (address, _, h3) = and_then-ok w.change_address _ h2 in
      let found : us' ≡ u ∷ us = ok-injective (sym l ∙ listed) in
      let selected : select_utxos w (as_i64 amount) (u ∷ us) ≡ ok sel =
        ap (select_utxos w (as_i64 amount)) (sym found) ∙ s in
      let sent : join_comma (map input_hex sel) ≡ csv = ap (λ p. p.0) (ok-injective h3) in
      (
        sel,
        selected,
        subst (λ t. csv_hex_to_bdk_input x t ≡ ok (map read_input sel)) sent
            (by_selection sel selected),
      )
    where
      by_selection :
          (sel : List (Utxo × String))
          → select_utxos w (as_i64 amount) (u ∷ us) ≡ ok sel
          → csv_hex_to_bdk_input x (join_comma (map input_hex sel)) ≡ ok (map read_input sel)
      by_selection [] e = absurd (select_utxos-ne-nil (as_i64 amount) u us e)
      by_selection (p ∷ ps) e = joined-read ps p (select_utxos-Encoded (as_i64 amount) (u ∷ us) e)
