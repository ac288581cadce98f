-- ===== src/Trader/Nonce.antt =====
-- The nonce of a trade (wallet/musig2_utils.rs).
use taptrade_core.Prelude.{String, Bool, true, false, ◌||◌, if◌then◌else◌}
use taptrade_core.Prelude.Result.{Result, ok, err, and_then}
use taptrade_core.Errors.{AnyError, external}
use taptrade_core.Trader.Settings.{TraderWallet}

pub record MusigNonce : Type 0 where
  pub secret_nonce : String
  pub accessed_for_signing : Bool
  pub accessed_for_sharing : Bool

pub record MuSigData : Type 0 where
  pub nonce : MusigNonce
  pub public_key : String
  pub secret_key : String

module _ (w : TraderWallet) where
  unfoldable pub generate : Result AnyError MusigNonce
  generate = and_then w.new_nonce λ n.
      ok (record { secret_nonce = n; accessed_for_signing = false; accessed_for_sharing = false })

  unfoldable pub create : Result AnyError MuSigData
  unfolding generate
  create = and_then generate λ nonce.
      and_then w.keypair
        λ (public, secret). ok (record { nonce = nonce; public_key = public; secret_key = secret })

  -- It takes the nonce by value: nothing is left of it.
  unfoldable pub get_sec_for_signing : MusigNonce → Result AnyError String
  get_sec_for_signing n =
      if n.accessed_for_signing
      then err (external "MuSig nonce has already been used for signing!")
      else ok n.secret_nonce

  -- the public nonce, and the nonce after the call
  unfoldable pub get_pub_for_sharing : MusigNonce → Result AnyError String × MusigNonce
  get_pub_for_sharing n =
      if n.accessed_for_sharing || n.accessed_for_signing
      then (err (external "MuSig nonce reused!"), n)
      else (ok (w.public_nonce n.secret_nonce), record n { accessed_for_sharing = true })
