-- ===== src/System/Rounds.antt =====
-- What a served request and a round of a background task keep (communication/mod.rs, coordinator/
-- tx_confirmation_monitoring.rs, coordinator/escrow_cli.rs).
use taptrade_core.Prelude.{ℕ, String, ◌≡◌, Bool, Bool-cases, inl, inr, refl}
use taptrade_core.Prelude.Result.{Keeps, ok, err, panic, Result, Action}
use taptrade_core.Externals.{Externals}
use taptrade_core.Node.{Node}
use taptrade_core.Database.Writes.{Write, run_write}
use taptrade_core.Coordinator.State.{Coordinator}
use taptrade_core.Http.{Request, serve, receive_order}
use taptrade_core.Monitor.Confirmations.{update_transaction_confirmations, TxInfo}
use taptrade_core.Database.Tables.{CoordinatorDb}
use taptrade_core.System.Stable.{Stable}
use taptrade_core.System.Offers.{
  process_order-keeps, handle_maker_bond-keeps, handle_taker_bond-Keeps, get_public_offers-Keeps,
  get_offer_status_maker-Keeps,
}
use taptrade_core.System.Trades.{
  handle_obligation_confirmation-Keeps, initiate_escrow-Keeps,
  fetch_escrow_confirmation_status-Keeps, handle_signed_escrow_psbt-Keeps,
  handle_final_payout-Keeps, handle_payout_signature-Keeps,
}
use taptrade_core.Api.{OfferRequest}
use taptrade_core.Api.Validate.{validate}
use taptrade_core.Http.Answers.{
  Response, answer, with_result, order_answer, maker_bond_answer, offers_answer, taker_bond_answer,
  offer_status_answer, escrow_psbt_answer, confirmation_answer, obligation_answer, payout_answer,
  signature_answer,
}
use taptrade_core.Coordinator.Offers.{
  process_order, handle_maker_bond, get_public_offers, handle_taker_bond, get_offer_status_maker,
}
use taptrade_core.Coordinator.Trades.{
  handle_signed_escrow_psbt, fetch_escrow_confirmation_status, handle_obligation_confirmation,
  initiate_escrow, handle_final_payout, handle_payout_signature,
}

-- An answer leaves the state as the handler has left it.
answer_state :
    {E A : Type 0} (f : Result E A → Response) (m : Action Coordinator E A) (c : Coordinator)
    → (answer f m c).1 ≡ (m c).1
answer_state f m c = by_result (m c).0 (m c).1
  where
    by_result : (r : Result _ _) (d : Coordinator) → (with_result f (r, d)).1 ≡ d
    by_result (ok a) d = refl
    by_result (err e) d = refl
    by_result panic d = refl

-- A condition that the handler keeps is kept by the route.
answer-keeps :
    {E A : Type 0} (P : Coordinator → Type 0) (f : Result E A → Response)
    (m : Action Coordinator E A)
    → Keeps P m
    → (c : Coordinator) → P c
    → P (answer f m c).1
answer-keeps P f m k c p = rw (answer_state f m c) (k c p)

-- what is asked of the id that a request draws
abbrev pub Drawn : (String → CoordinatorDb → Type 0) → Node → Request → CoordinatorDb → Type 0
Drawn New n (Request.submit_maker_bond b) db = New n.random_order_id db
Drawn New n _ db = Unit {0}

-- where all ids will do
abbrev pub AnyId : String → CoordinatorDb → Type 0
AnyId id db = Unit {0}

pub any_id : (n : Node) (r : Request) (db : CoordinatorDb) → Drawn AnyId n r db
any_id n (Request.create_offer r) db = tt
any_id n (Request.submit_maker_bond r) db = tt
any_id n (Request.fetch_available_offers r) db = tt
any_id n (Request.submit_taker_bond r) db = tt
any_id n (Request.request_offer_status r) db = tt
any_id n (Request.submit_escrow_psbt r) db = tt
any_id n (Request.poll_escrow_confirmation r) db = tt
any_id n (Request.submit_obligation_confirmation r) db = tt
any_id n (Request.request_escrow r) db = tt
any_id n (Request.poll_final_payout r) db = tt
any_id n (Request.submit_payout_signature r) db = tt

module _ {New : String → CoordinatorDb → Type 0} (x : Externals) (P : Coordinator → Type 0)
    (s : Stable x New P) where
  receive_order-keeps :
      (n : Node) (now : ℕ) (o : OfferRequest) (c : Coordinator)
      → P c
      → P (receive_order x n now o c).1
  unfolding receive_order
  receive_order-keeps n now o c p = elim (Bool-cases (validate now o)) [
    | inl e ↦ rw e (
        rw (answer_state order_answer (process_order x n o) c)
          (process_order-keeps x P s n now o c e p))
    | inr e ↦ rw e p
  ]

  -- Whatever request is served, a condition that writes and the transactions of a trade keep is kept.
  -- `New` has to hold of the id that a new offer gets.
  pub serve-keeps :
      (n : Node) (now : ℕ) (r : Request) (c : Coordinator)
      → Drawn New n r c.db
      → P c
      → P (serve x n now r c).1
  unfolding serve
  serve-keeps n now (Request.create_offer r) c d p = receive_order-keeps n now r c p
  serve-keeps n now (Request.submit_maker_bond r) c d p =
      rw (answer_state maker_bond_answer (handle_maker_bond x n r) c)
        (handle_maker_bond-keeps x P s n r c d p)
  serve-keeps n now (Request.fetch_available_offers r) c d p =
      answer-keeps P offers_answer (get_public_offers r) (get_public_offers-Keeps x P s r) c p
  serve-keeps n now (Request.submit_taker_bond r) c d p =
      answer-keeps P taker_bond_answer (handle_taker_bond x n r) (handle_taker_bond-Keeps x P s n r)
        c p
  serve-keeps n now (Request.request_offer_status r) c d p =
      answer-keeps P offer_status_answer (get_offer_status_maker r)
        (get_offer_status_maker-Keeps x P s r) c p
  serve-keeps n now (Request.submit_escrow_psbt r) c d p =
      answer-keeps P escrow_psbt_answer (handle_signed_escrow_psbt x n r)
        (handle_signed_escrow_psbt-Keeps x P s n r) c p
  serve-keeps n now (Request.poll_escrow_confirmation r) c d p =
      answer-keeps P confirmation_answer (fetch_escrow_confirmation_status x r)
        (fetch_escrow_confirmation_status-Keeps x P s r) c p
  serve-keeps n now (Request.submit_obligation_confirmation r) c d p =
      answer-keeps P obligation_answer (handle_obligation_confirmation x r)
        (handle_obligation_confirmation-Keeps x P s r) c p
  serve-keeps n now (Request.request_escrow r) c d p =
      answer-keeps P obligation_answer (initiate_escrow x r) (initiate_escrow-Keeps x P s r) c p
  serve-keeps n now (Request.poll_final_payout r) c d p =
      answer-keeps P payout_answer (handle_final_payout x n r) (handle_final_payout-Keeps x P s n r)
        c p
  serve-keeps n now (Request.submit_payout_signature r) c d p =
      answer-keeps P signature_answer (handle_payout_signature x n r)
        (handle_payout_signature-Keeps x P s n r) c p

  pub confirmations-keeps :
      (is_txid : String → Bool) (info : String → TxInfo) (c : Coordinator)
      → P c
      → P (record c { db = update_transaction_confirmations is_txid info c.db })
  unfolding update_transaction_confirmations run_write
  confirmations-keeps is_txid info c p = s.write (Write.confirm_bond_txids _) c tt p
