-- ===== src/Wallet/Inputs.antt =====
-- The inputs that a trader offers for the escrow transaction (wallet/wallet_utils.rs,
-- wallet/escrow_psbt.rs).
use Prim.Native.Char.{Char, code}
use taptrade_core.Prelude.{ℕ, ◌==◌, String, Option, none, some, List, [], ◌∷◌, if◌then◌else◌}
use taptrade_core.Prelude.Result.{Result, ok, err, ok_or, and_then}
use taptrade_core.Prelude.Word.{add_u64}
use taptrade_core.Errors.{AnyError, invalid_hex, external, empty_input_sum, invalid_input}
use taptrade_core.Externals.{Externals}
use taptrade_core.Types.{PsbtInput, EscrowPsbtConstructionData}

-- puts a character in front of the first piece
abbrev pub extend : Char → List String → List String
extend c [] = (String.◌∷◌ c String.[]) ∷ []
extend c (s ∷ ss) = (String.◌∷◌ c s) ∷ ss

-- `text.split(',')`
unfoldable pub split_comma : String → List String
split_comma String.[] = String.[] ∷ []
split_comma (String.◌∷◌ c s) =
    let rest = split_comma s in if code c == b',' then String.[] ∷ rest else extend c rest

module _ (x : Externals) where
  -- the loop of `csv_hex_to_bdk_input`
  unfoldable pub parse_inputs : List String → Result AnyError (List PsbtInput)
  parse_inputs [] = ok []
  parse_inputs (input_hex ∷ rest) =
      let inputs = parse_inputs rest in
      and_then (ok_or (x.hex_decode input_hex) invalid_hex) λ binary.
        and_then (ok_or (x.psbt_input binary) invalid_input)
          λ input. and_then inputs λ others. ok (input ∷ others)

  abbrev pub nonempty : List PsbtInput → Result AnyError (List PsbtInput)
  nonempty [] = err (external "No inputs found in csv input value")
  nonempty (i ∷ is) = ok (i ∷ is)

  unfoldable pub csv_hex_to_bdk_input : String → Result AnyError (List PsbtInput)
  unfolding parse_inputs split_comma
  csv_hex_to_bdk_input inputs_csv_hex =
      and_then (parse_inputs (split_comma inputs_csv_hex)) nonempty

abbrev pub add_value : ℕ → Option ℕ → Result AnyError ℕ
add_value sum none = ok sum
add_value sum (some value) = add_u64 sum value

-- the loop of `EscrowPsbtConstructionData::input_sum`
unfoldable pub sum_inputs : ℕ → List PsbtInput → Result AnyError ℕ
sum_inputs sum [] = ok sum
sum_inputs sum (input ∷ rest) =
    and_then (add_value sum input.witness_utxo_value) λ s. sum_inputs s rest

unfoldable pub input_sum : EscrowPsbtConstructionData → Result AnyError ℕ
unfolding sum_inputs
input_sum d =
    and_then (sum_inputs 0 d.escrow_input_utxos)
      λ sum. if sum == 0 then err empty_input_sum else ok sum
