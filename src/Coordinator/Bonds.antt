-- ===== src/Coordinator/Bonds.antt =====
-- Which bonds the coordinator takes from makers and takers (coordinator/mod.rs, `handle_maker_bond`
-- and `handle_taker_bond`).
use taptrade_core.Prelude.{String, ◌≡◌, ◌⊎◌, refl, inl, inr}
use taptrade_core.Prelude.Result.{Result, ok, map_err, map_err-ok, resume-cases}
use taptrade_core.Errors.{AnyError, invalid_bond}
use taptrade_core.Externals.{Externals}
use taptrade_core.Node.{Node}
use taptrade_core.Api.{BondSubmissionRequest, OfferPsbtRequest}
use taptrade_core.Types.{BondRequirements}
use taptrade_core.Wallet.Bonds.{validate_bond_tx_hex}
use taptrade_core.Wallet.Standing.{Stands, validate_bond_tx_hex-Stands}
use taptrade_core.Database.Requests.{fetch_bond_requirements}
use taptrade_core.Database.Orderbook.{fetch_taker_bond_requirements}
use taptrade_core.Coordinator.State.{Coordinator}
use taptrade_core.Coordinator.Offers.{as_not_found, handle_maker_bond, handle_taker_bond}

module _ (x : Externals) (n : Node) where
  -- the bond meets the requirements that the query has read
  pub record Secured (requirements : Result AnyError BondRequirements) (bond_tx_hex : String)
      : Type 0 where
    pub required : BondRequirements
    pub read : requirements ≡ ok required
    pub stands : Stands x n bond_tx_hex required

  -- a step that a bond may have brought about
  abbrev pub TakesBond :
      Result AnyError BondRequirements → String → Coordinator → Coordinator → Type 0
  TakesBond requirements bond_tx_hex c c' = (c' ≡ c) ⊎ Secured requirements bond_tx_hex

  secured :
      (q : Result AnyError BondRequirements) (bond_tx_hex : String) (r : BondRequirements)
      → map_err as_not_found q ≡ ok r
      → map_err invalid_bond (validate_bond_tx_hex x n bond_tx_hex r) ≡ ok tt
      → Secured q bond_tx_hex
  secured q bond_tx_hex r e v = record {
    required = r;
    read = map_err-ok as_not_found q e;
    stands =
        validate_bond_tx_hex-Stands x n bond_tx_hex r
          (map_err-ok invalid_bond (validate_bond_tx_hex x n bond_tx_hex r) v);
  }

  -- Handing in a maker's bond changes nothing, unless a request of the robot is pending and the
  -- bond stands as that request requires: its transaction parses and verifies, covers the amounts
  -- and the fee rate, is accepted by bitcoin core for its mempool, and spends no output that a
  -- known transaction spends.
  pub handle_maker_bond-TakesBond :
      (b : BondSubmissionRequest) (c : Coordinator)
      → TakesBond
          (fetch_bond_requirements x b.robohash_hex c.db)
          b.signed_bond_hex
          c
          (handle_maker_bond x n b c).1
  unfolding handle_maker_bond
  handle_maker_bond-TakesBond b c =
      let requirements = fetch_bond_requirements x b.robohash_hex c.db in
      let P = TakesBond requirements b.signed_bond_hex c in
      resume-cases P (map_err as_not_found requirements) c _ (inl refl) (λ r e.
        resume-cases P (map_err invalid_bond (validate_bond_tx_hex x n b.signed_bond_hex r)) c _
          (inl refl) (λ _ v. inr (secured requirements b.signed_bond_hex r e v)))

  -- Taking an offer changes nothing, unless the offer is in the orderbook and the taker's bond
  -- stands as the offer requires, in the same sense.
  pub handle_taker_bond-TakesBond :
      (q : OfferPsbtRequest) (c : Coordinator)
      → TakesBond
          (fetch_taker_bond_requirements q.offer.offer_id_hex c.db)
          q.trade_data.signed_bond_hex
          c
          (handle_taker_bond x n q c).1
  unfolding handle_taker_bond
  handle_taker_bond-TakesBond q c =
      let requirements = fetch_taker_bond_requirements q.offer.offer_id_hex c.db in
      let P = TakesBond requirements q.trade_data.signed_bond_hex c in
      resume-cases P (map_err as_not_found requirements) c _ (inl refl) (λ r e.
        resume-cases P
          (map_err invalid_bond (validate_bond_tx_hex x n q.trade_data.signed_bond_hex r)) c _
          (inl refl) (λ _ v. inr (secured requirements q.trade_data.signed_bond_hex r e v)))
