-- ===== src/System/Trades.antt =====
-- What the handlers of trades keep, from the escrow to the payout (coordinator/mod.rs).
use taptrade_core.Prelude.{
  String, ◌≡◌, refl, ◌∙◌, ap, Bool, true, false, Option, none, some, if◌then◌else◌,
}
use taptrade_core.Prelude.Result.{Keeps, resume-cases, map_err, pure, ok}
use taptrade_core.Protocol.Writes.{Payable}
use taptrade_core.System.Guards.{
  BothHappy, happiness-BothHappy, unpaid-Payable, toggle-Payable, context-Finished,
}
use taptrade_core.Errors.{
  RequestError, FetchEscrowConfirmationError, psbt_invalid, psbt_already_submitted,
}
use taptrade_core.Externals.{Externals}
use taptrade_core.Node.{Node}
use taptrade_core.Api.{
  OfferTakenRequest, PsbtSubmissionRequest, TradeObligationsUnsatisfied, PayoutSignatureRequest,
}
use taptrade_core.Types.{PayoutData, KeyspendContext, not_ready}
use taptrade_core.Wallet.Escrow.{combine_and_broadcast_escrow_psbt}
use taptrade_core.Database.Writes.{Write, run_write}
use taptrade_core.Database.Trade.{
  fetch_trader_happiness, toggle_processing, fetch_escrow_result, delete_complete_offer,
}
use taptrade_core.Coordinator.State.{Coordinator}
use taptrade_core.Coordinator.Trades.{
  fetch_escrow_confirmation_status, both_happy, undecided, handle_obligation_confirmation,
  initiate_escrow, combine_if_both, handle_signed_escrow_psbt, assemble_payout, stored_or_assembled,
  keyspend_payout, disputed_payout, handle_final_payout, finish_payout, handle_payout_signature,
  escrow_verdict,
}
use taptrade_core.Database.Taken.{
  is_valid_robohash_in_table, insert_signed_escrow_psbt, fetch_both_signed_escrow_psbts,
}
use taptrade_core.Wallet.Payout.{assemble_keyspend_payout_psbt, broadcast_keyspend_tx}
use taptrade_core.Database.Payout.{
  insert_keyspend_payout_psbt, fetch_payout_data, fetch_keyspend_payout_psbt, insert_partial_sig,
  fetch_keyspend_payout_information,
}
use taptrade_core.Database.Tables.{CoordinatorDb}
use taptrade_core.System.Stable.{
  Stable, query-Keeps, query-keeps, lift-Keeps, or_fail-Keeps, on_db-Keeps, on_db-keeps,
  check-Keeps,
}

module _ {New : String → CoordinatorDb → Type 0} (x : Externals) (P : Coordinator → Type 0)
    (s : Stable x New P) where
  pub handle_obligation_confirmation-Keeps :
      (q : OfferTakenRequest) → Keeps P (handle_obligation_confirmation x q)
  unfolding handle_obligation_confirmation run_write
  handle_obligation_confirmation-Keeps q =
      check-Keeps x P q.offer_id_hex q.robohash_hex _
        (s.write (Write.set_trader_happy_field q.offer_id_hex q.robohash_hex true))

  pub initiate_escrow-Keeps : (q : TradeObligationsUnsatisfied) → Keeps P (initiate_escrow x q)
  unfolding initiate_escrow run_write
  initiate_escrow-Keeps q =
      check-Keeps x P q.offer_id_hex q.robohash_hex _
        (s.write (Write.set_trader_happy_field q.offer_id_hex q.robohash_hex false))

  pub fetch_escrow_confirmation_status-Keeps :
      (q : OfferTakenRequest) → Keeps P (fetch_escrow_confirmation_status x q)
  unfolding fetch_escrow_confirmation_status
  fetch_escrow_confirmation_status-Keeps q =
      query-Keeps P FetchEscrowConfirmationError.database
        (is_valid_robohash_in_table x q.robohash_hex q.offer_id_hex) _
        (λ valid. or_fail-Keeps P valid FetchEscrowConfirmationError.not_found _ (λ _ c p. p))

  module _ (n : Node) where
    combine_if_both-Keeps : (psbts : Option (String × String)) → Keeps P (combine_if_both x n psbts)
    combine_if_both-Keeps none c p = p
    combine_if_both-Keeps (some (maker, taker)) c p =
        lift-Keeps P (map_err psbt_invalid (combine_and_broadcast_escrow_psbt x n maker taker)) _
          s.escrow c p

    pub handle_signed_escrow_psbt-Keeps :
        (q : PsbtSubmissionRequest) → Keeps P (handle_signed_escrow_psbt x n q)
    unfolding handle_signed_escrow_psbt run_write
    handle_signed_escrow_psbt-Keeps q =
        query-Keeps P RequestError.database
          (is_valid_robohash_in_table x q.robohash_hex q.offer_id_hex) _
          (λ valid. or_fail-Keeps P valid RequestError.not_found _ (λ _.
            on_db-Keeps P RequestError.database (insert_signed_escrow_psbt x q) _
              (λ c. s.write (Write.insert_signed_escrow_psbt q) c tt)
              (λ inserted. or_fail-Keeps P inserted psbt_already_submitted _ (λ _.
                query-Keeps P RequestError.database (fetch_both_signed_escrow_psbts q.offer_id_hex)
                  _ combine_if_both-Keeps))))

    assemble_payout-keeps :
        (offer_id : String) (payout : PayoutData) (acquired : Bool) (c : Coordinator)
        → Payable offer_id c.db
        → P c
        → P (assemble_payout x n offer_id payout acquired c).1
    unfolding run_write
    assemble_payout-keeps offer_id payout false c a p = p
    assemble_payout-keeps offer_id payout true c a p =
        resume-cases P
          (map_err RequestError.coordinator_error (assemble_keyspend_payout_psbt n payout)) c _ p
          (λ psbt _.
            let written = s.write (Write.insert_keyspend_payout_psbt offer_id psbt) c a p in
            on_db-keeps P RequestError.database (insert_keyspend_payout_psbt offer_id psbt) _ c
              written
              (λ _.
                on_db-Keeps P RequestError.database (toggle_processing offer_id) _
                  (λ c. s.write (Write.toggle_processing offer_id) c tt) (λ _ c p. p) _ written))

    stored_or_assembled-keeps :
        (offer_id : String) (payout : PayoutData) (psbt : Option String) (c : Coordinator)
        → (psbt ≡ none → Payable offer_id c.db)
        → P c
        → P (stored_or_assembled x n offer_id payout psbt c).1
    unfolding run_write
    stored_or_assembled-keeps offer_id payout (some psbt) c a p = p
    stored_or_assembled-keeps offer_id payout none c a p =
        let toggled = s.write (Write.toggle_processing offer_id) c tt p in
        on_db-keeps P RequestError.database (toggle_processing offer_id) _ c toggled (λ acquired.
          assemble_payout-keeps offer_id payout acquired _ (toggle-Payable offer_id c.db (a refl))
            toggled)

    keyspend_payout-keeps :
        (offer_id : String) (c : Coordinator)
        → BothHappy offer_id c.db
        → P c
        → P (keyspend_payout x n offer_id c).1
    unfolding keyspend_payout
    keyspend_payout-keeps offer_id c h p =
        query-keeps P RequestError.database (fetch_payout_data x offer_id) _ c p (λ payout _.
          query-keeps P RequestError.database (fetch_keyspend_payout_psbt offer_id) _ c p (λ psbt e.
            stored_or_assembled-keeps offer_id payout psbt c
              (λ unpaid. unpaid-Payable offer_id c.db h (e ∙ ap ok unpaid)) p))

    escrow_verdict-Keeps :
        (robohash_hex : String) (winner : Option String)
        → Keeps P (escrow_verdict robohash_hex winner)
    escrow_verdict-Keeps robohash_hex (some w) c p = p
    escrow_verdict-Keeps robohash_hex none c p = p

    disputed_payout-Keeps : (q : OfferTakenRequest) → Keeps P (disputed_payout x n q)
    unfolding disputed_payout
    disputed_payout-Keeps q =
        query-Keeps P RequestError.database (fetch_escrow_result q.offer_id_hex) _
          (escrow_verdict-Keeps q.robohash_hex)

    final-keeps :
        (q : OfferTakenRequest) (both open_case : Bool) (c : Coordinator)
        → (both ≡ true → BothHappy q.offer_id_hex c.db)
        → P c
        → P
            ((if both
                then keyspend_payout x n q.offer_id_hex
                else (if open_case then pure not_ready else disputed_payout x n q))
              c).1
    final-keeps q true open_case c h p = keyspend_payout-keeps q.offer_id_hex c (h refl) p
    final-keeps q false true c h p = p
    final-keeps q false false c h p = disputed_payout-Keeps q c p

    pub handle_final_payout-Keeps : (q : OfferTakenRequest) → Keeps P (handle_final_payout x n q)
    unfolding handle_final_payout
    handle_final_payout-Keeps q c p =
        query-keeps P RequestError.database (fetch_trader_happiness q.offer_id_hex) _ c p (λ h e.
          final-keeps q (both_happy h) (undecided h) c (happiness-BothHappy q.offer_id_hex c.db h e)
            p)

    finish_payout-keeps :
        (offer_id : String) (context : Option KeyspendContext) (c : Coordinator)
        → fetch_keyspend_payout_information x offer_id c.db ≡ ok context
        → P c
        → P (finish_payout x n offer_id context c).1
    unfolding run_write
    finish_payout-keeps offer_id none c e p = p
    finish_payout-keeps offer_id (some context) c e p =
        resume-cases P (map_err RequestError.coordinator_error (broadcast_keyspend_tx n context)) c
          _ p
          (λ tx _.
            let ended =
              s.write (Write.delete_complete_offer offer_id) _
                (context-Finished x offer_id c.db context e) (s.keyspend tx c p) in
            on_db-keeps P RequestError.database (delete_complete_offer offer_id) _ _ ended
              (λ _. ended))

    pub handle_payout_signature-Keeps :
        (q : PayoutSignatureRequest) → Keeps P (handle_payout_signature x n q)
    unfolding handle_payout_signature run_write
    handle_payout_signature-Keeps q = check-Keeps x P q.offer_id_hex q.robohash_hex _ (λ c a p.
        let stored =
          s.write (Write.insert_partial_sig q.partial_sig_hex q.offer_id_hex q.robohash_hex) c a
            p in
        on_db-keeps P RequestError.database
          (insert_partial_sig x q.partial_sig_hex q.offer_id_hex q.robohash_hex) _ c stored
          (λ _.
            query-keeps P RequestError.database (fetch_keyspend_payout_information x q.offer_id_hex)
              _ _ stored (λ context e. finish_payout-keeps q.offer_id_hex context _ e stored)))
