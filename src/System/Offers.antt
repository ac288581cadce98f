-- ===== src/System/Offers.antt =====
-- What the handlers of orders, bonds and offers keep (coordinator/mod.rs).
use taptrade_core.Prelude.{ℕ, String, ◌≡◌, true}
use taptrade_core.Prelude.Result.{Keeps, Keeps-resume, resume-cases, map_err}
use taptrade_core.Api.Validate.{validate}
use taptrade_core.Coordinator.Orders.{bond_requirements_for-IsSized}
use taptrade_core.Errors.{BondError, invalid_bond, FetchOffersError}
use taptrade_core.Externals.{Externals}
use taptrade_core.Node.{Node}
use taptrade_core.Api.{
  OfferRequest, BondSubmissionRequest, OffersRequest, OfferPsbtRequest, OfferTakenRequest,
}
use taptrade_core.Wallet.Escrow.{create_escrow_psbt}
use taptrade_core.Database.Writes.{Write, run_write}
use taptrade_core.Coordinator.State.{Coordinator}
use taptrade_core.Coordinator.Offers.{
  process_order, handle_maker_bond, handle_taker_bond, get_public_offers, get_offer_status_maker,
  bond_requirements_for, as_not_found,
}
use taptrade_core.Database.Taken.{add_taker_info_and_move_table, fetch_escrow_output_information}
use taptrade_core.Database.Requests.{insert_new_maker_request, fetch_bond_requirements}
use taptrade_core.Wallet.Bonds.{validate_bond_tx_hex}
use taptrade_core.Database.Orderbook.{
  move_offer_to_active, fetch_taker_bond_requirements, fetch_suitable_offers,
}
use taptrade_core.Database.Tables.{CoordinatorDb}
use taptrade_core.System.Stable.{
  Stable, query-Keeps, lift-Keeps, on_db-Keeps, on_db-keeps, query-keeps,
}

module _ {New : String → CoordinatorDb → Type 0} (x : Externals) (P : Coordinator → Type 0)
    (s : Stable x New P) where
  module _ (n : Node) where
    pub process_order-keeps :
        (now : ℕ) (o : OfferRequest) (c : Coordinator)
        → validate now o ≡ true
        → P c
        → P (process_order x n o c).1
    unfolding process_order run_write
    process_order-keeps now o c valid p = resume-cases P (bond_requirements_for x n o) c _ p (λ b e.
        let sized = bond_requirements_for-IsSized x n now o valid e in
        on_db-keeps P (λ e. e) (insert_new_maker_request x o b) _ c
          (s.write (Write.insert_new_maker_request o b) c sized p)
          (λ _. s.write (Write.insert_new_maker_request o b) c sized p))

    pub handle_maker_bond-keeps :
        (b : BondSubmissionRequest) (c : Coordinator)
        → New n.random_order_id c.db
        → P c
        → P (handle_maker_bond x n b c).1
    unfolding handle_maker_bond run_write
    handle_maker_bond-keeps b c new p =
        query-keeps P as_not_found (fetch_bond_requirements x b.robohash_hex) _ c p (λ r _.
          resume-cases P (map_err invalid_bond (validate_bond_tx_hex x n b.signed_bond_hex r)) c _ p
            (λ _ _.
              resume-cases P (map_err BondError.coordinator_error n.get_address) c _ p (λ address _.
                let moved =
                  s.write (Write.move_offer_to_active b n.random_order_id address) c new p in
                on_db-keeps P BondError.coordinator_error
                  (move_offer_to_active x b n.random_order_id address) _ c moved (λ _. moved))))

    pub handle_taker_bond-Keeps : (q : OfferPsbtRequest) → Keeps P (handle_taker_bond x n q)
    unfolding handle_taker_bond run_write
    handle_taker_bond-Keeps q =
        query-Keeps P as_not_found (fetch_taker_bond_requirements q.offer.offer_id_hex) _ (λ r.
          lift-Keeps P
            (map_err invalid_bond (validate_bond_tx_hex x n q.trade_data.signed_bond_hex r)) _
            (λ _.
              query-Keeps P BondError.coordinator_error (λ db. create_escrow_psbt x n db q) _
                (λ escrow.
                  on_db-Keeps P BondError.coordinator_error
                    (add_taker_info_and_move_table x q escrow) _
                    (λ c. s.write (Write.add_taker_info_and_move_table q escrow) c tt)
                    (λ _ c p. p))))

  pub get_public_offers-Keeps : (q : OffersRequest) → Keeps P (get_public_offers q)
  unfolding get_public_offers
  get_public_offers-Keeps q c p =
      Keeps-resume P (map_err FetchOffersError.database (fetch_suitable_offers q c.db)) c _ p
        (λ offers c p. p)

  pub get_offer_status_maker-Keeps : (q : OfferTakenRequest) → Keeps P (get_offer_status_maker q)
  unfolding get_offer_status_maker
  get_offer_status_maker-Keeps q =
      query-Keeps P FetchOffersError.database (fetch_escrow_output_information q.offer_id_hex) _
        (λ e c p. p)
