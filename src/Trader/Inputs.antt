-- ===== src/Trader/Inputs.antt =====
-- The inputs that a trader offers for the escrow transaction (wallet/mod.rs,
-- `get_escrow_psbt_inputs`). The amount that is still to be covered is an `i64`.
use taptrade_core.Prelude.{
  ℕ, ◌+◌, ◌-◌, ◌^◌, String, Bool, true, List, [], ◌∷◌, leb, ltb, map, ◌==◌, if◌then◌else◌,
}
use Prim.Native.String.{◌++◌ as append}
use taptrade_core.Prelude.Result.{Result, ok, panic, and_then}
use taptrade_core.Errors.{AnyError}
use taptrade_core.Trader.Settings.{TraderWallet, Utxo}

pub data ℤ : Type 0 where
  pos negsuc : ℕ → ℤ

-- `u64 as i64`
abbrev pub as_i64 : ℕ → ℤ
as_i64 n = if ltb n (2 ^ 63) then pos n else negsuc (2 ^ 64 - 1 - n)

abbrev pub in_i64 : ℤ → Result AnyError ℤ
in_i64 (pos n) = if ltb n (2 ^ 63) then ok (pos n) else panic
in_i64 (negsuc n) = if ltb n (2 ^ 63) then ok (negsuc n) else panic

abbrev pub minus : ℤ → ℤ → ℤ
minus (pos a) (pos b) = if leb b a then pos (a - b) else negsuc (b - a - 1)
minus (pos a) (negsuc b) = pos (a + b + 1)
minus (negsuc a) (pos b) = negsuc (a + b)
minus (negsuc a) (negsuc b) = if leb a b then pos (b - a) else negsuc (a - b - 1)

abbrev pub sub_i64 : ℤ → ℤ → Result AnyError ℤ
sub_i64 a b = in_i64 (minus a b)

-- `amount_sat <= 0`
abbrev pub not_positive : ℤ → Bool
not_positive (pos n) = n == 0
not_positive (negsuc n) = true

-- `inputs.join(",")`
unfoldable pub join_comma : List String → String
join_comma [] = ""
join_comma (s ∷ []) = s
join_comma (s ∷ t ∷ ss) = append s (append "," (join_comma (t ∷ ss)))

abbrev pub input_hex : Utxo × String → String
input_hex (utxo, hex) = hex

module _ (w : TraderWallet) where
  -- the loop over the unspent outputs: those that are taken, each with its serialized input
  unfoldable pub select_utxos : ℤ → List Utxo → Result AnyError (List (Utxo × String))
  select_utxos amount_sat [] = ok []
  select_utxos amount_sat (utxo ∷ available_utxos) = and_then (w.psbt_input_hex utxo) λ hex.
      and_then (sub_i64 amount_sat (as_i64 utxo.txout_value)) λ left.
        if not_positive left
        then ok ((utxo, hex) ∷ [])
        else and_then (select_utxos left available_utxos) λ others. ok ((utxo, hex) ∷ others)

  -- the serialized inputs and the change address
  unfoldable pub get_escrow_psbt_inputs : ℕ → Result AnyError (String × String)
  unfolding select_utxos join_comma
  get_escrow_psbt_inputs amount_sat = and_then w.list_unspent λ available_utxos.
      and_then (select_utxos (as_i64 amount_sat) available_utxos) λ inputs.
        and_then w.change_address λ address. ok (join_comma (map input_hex inputs), address)
