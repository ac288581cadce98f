-- ===== src/Tests/Inputs.antt =====
-- The inputs that a trader sends, at a concrete wallet.
use mathlib.Core.Path.{subst}
use taptrade_core.Prelude.{String, ◌≡◌, refl, true, some, List, [], ◌∷◌, map, Bytes}
use taptrade_core.Prelude.Result.{ok, ok-injective}
use taptrade_core.Wallet.Inputs.{csv_hex_to_bdk_input}
use taptrade_core.Trader.Settings.{TraderWallet, Utxo}
use taptrade_core.Trader.Inputs.{as_i64, select_utxos, get_escrow_psbt_inputs, join_comma}
use taptrade_core.Trader.Csv.{SameCodec, no_comma, get_escrow_psbt_inputs-csv}
use taptrade_core.Tests.Data.{crates, input}
use taptrade_core.Tests.Traders.{wallet}

abbrev hex_wallet : TraderWallet
hex_wallet = record wallet { psbt_input_hex = λ u. ok "ab" }

abbrev ReadsInput : String → Type 0
ReadsInput hex =
    (no_comma hex ≡ true)
    × ((b : Bytes) × (crates.hex_decode hex ≡ some b) × (crates.psbt_input b ≡ some input))

codec : SameCodec crates hex_wallet (λ u. input)
codec = record {
  reads = λ u hex e. subst ReadsInput (ok-injective e) (refl, (97 ∷ [], refl, refl));
}

get_escrow_psbt_inputs-csv_example :
    (sel : List (Utxo × String)) × (select_utxos hex_wallet (as_i64 1120000) (
        record { outpoint = "a"; txout_value = 600000 }
        ∷ record { outpoint = "b"; txout_value = 900000 }
        ∷ record { outpoint = "c"; txout_value = 5000 }
        ∷ [])
      ≡ ok sel)
    × (csv_hex_to_bdk_input crates "ab,ab" ≡ ok (map (λ p. input) sel))
unfolding get_escrow_psbt_inputs select_utxos join_comma
get_escrow_psbt_inputs-csv_example =
    get_escrow_psbt_inputs-csv crates hex_wallet (λ u. input) codec 1120000
      (record { outpoint = "a"; txout_value = 600000 })
      (record { outpoint = "b"; txout_value = 900000 }
        ∷ record { outpoint = "c"; txout_value = 5000 }
        ∷ [])
      {csv = "ab,ab"} {change = "change"} refl refl
