-- ===== src/Database/Amounts.antt =====
-- What the two traders put into the escrow output, and what the payout gives back to each
-- (database/mod.rs, `get_escrow_tx_amounts` and `fetch_payout_data`).
use taptrade_core.Prelude.{◌+◌, ◌*◌, ◌^◌, ◌≡◌, refl, inl, inr, Bytes, Bool-cases, ltb, ◌==◌, arith}
use taptrade_core.Prelude.Result.{ok}
use taptrade_core.Externals.{Externals}
use taptrade_core.Api.{OfferPsbtRequest}
use taptrade_core.Types.{EscrowPsbt}
use taptrade_core.Database.Tables.{ActiveMakerOffer}
use taptrade_core.Database.Orderbook.{awaiting_taker_offer}
use taptrade_core.Database.Taken.{taken_row}
use taptrade_core.Database.Invariant.{HasFlag}
use taptrade_core.Database.Requests.{get_int}
use taptrade_core.Database.Payout.{EscrowAmounts, escrow_split, escrow_amounts_of, payout_amounts}

module _ (x : Externals) where
  escrow_amounts_of-split :
      (o : ActiveMakerOffer) (a : EscrowAmounts)
      → escrow_amounts_of x o ≡ ok a
      → a
        ≡ escrow_split
            (get_int x o.is_buy_order == 1)
            (o.amount_sat + o.bond_amount_sat)
            o.bond_amount_sat
            (x.escrow_fee o.amount_sat)
  unfolding escrow_amounts_of
  escrow_amounts_of-split o a h =
      elim (Bool-cases (ltb (o.amount_sat + o.bond_amount_sat) (2 ^ 64))) [
        | inl e ↦ let k = rw e at h in cc
        | inr e ↦ cc (rw e at h)
      ]

  -- When NULL is read as 0, the direction column holds NULL or 1, and the escrow shares are those
  -- computed for the offer, the two shares make the amount and two bonds together, and the payout
  -- gives the maker the amount and one bond and the taker one bond, whichever the direction is: for
  -- a buy offer the buyer gets the amount, but for a sell offer, where the maker is the seller, the
  -- seller gets it back and the buyer gets only a bond.
  pub payout_amounts-escrow_amounts_of :
      (o : ActiveMakerOffer) (robohash : Bytes) (info : OfferPsbtRequest) (escrow : EscrowPsbt)
      (a : EscrowAmounts)
      → x.null_int ≡ 0
      → HasFlag o
      → escrow_amounts_of x o ≡ ok a
      → escrow.escrow_amount_maker_sat ≡ a.0
      → escrow.escrow_amount_taker_sat ≡ a.1
      → (escrow.escrow_amount_maker_sat + escrow.escrow_amount_taker_sat
          ≡ o.amount_sat + 2 * o.bond_amount_sat)
        × (payout_amounts x (taken_row (awaiting_taker_offer x o.offer_id o) robohash info escrow)
            ≡ (o.amount_sat + o.bond_amount_sat, o.bond_amount_sat))
  payout_amounts-escrow_amounts_of o robohash info escrow a null flag h maker taker =
      let split = escrow_amounts_of-split o a h in
      elim flag [
        | inl e ↦
            let s = rw (e, null) at split in rw (maker, taker, s) (omega arith, rw (e, null) refl)
        | inr e ↦ let s = rw e at split in rw (maker, taker, s) (omega arith, rw e refl)
      ]
