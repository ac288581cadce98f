-- ===== src/Coordinator/Broadcasts.antt =====
-- When the coordinator sends out the escrow and the payout transaction (coordinator/mod.rs).
use taptrade_core.Prelude.{
  String, ◌≡◌, ◌⊎◌, refl, ap, Bool, true, false, Option, none, some, inl, inr, ◌∷◌,
}
use taptrade_core.Prelude.Result.{
  Result, ok, err, panic, resume, map_err, ◌>>=◌, resume-cases, map_err-ok,
}
use taptrade_core.Errors.{AnyError, RequestError, psbt_invalid, psbt_already_submitted}
use taptrade_core.Externals.{Externals}
use taptrade_core.Node.{Node}
use taptrade_core.Api.{PsbtSubmissionRequest, PayoutSignatureRequest}
use taptrade_core.Types.{KeyspendContext}
use taptrade_core.Wallet.Escrow.{combine_and_broadcast_escrow_psbt}
use taptrade_core.Wallet.Payout.{broadcast_keyspend_tx}
use taptrade_core.Sql.{fetch_optional}
use taptrade_core.Sql.Rows.{fetch-delete_self}
use taptrade_core.Database.Taken.{
  offer_is, is_valid_robohash_in_table, insert_signed_escrow_psbt, fetch_both_signed_escrow_psbts,
}
use taptrade_core.Database.Trade.{delete_complete_offer}
use taptrade_core.Database.Payout.{insert_partial_sig, fetch_keyspend_payout_information}
use taptrade_core.Coordinator.State.{Coordinator, Broadcast, on_db, query, sent}
use taptrade_core.Coordinator.Gates.{check-state}
use taptrade_core.Coordinator.Trades.{
  or_fail, combine_if_both, handle_signed_escrow_psbt, check_offer_and_confirmation, finish_payout,
  handle_payout_signature,
}
use taptrade_core.Database.Tables.{CoordinatorDb}

module _ (x : Externals) (n : Node) where
  -- what may have gone out with a signed psbt, the state being `c'` afterwards
  abbrev pub EscrowOut : PsbtSubmissionRequest → Coordinator → Coordinator → Type 0
  EscrowOut p c c' =
      (c'.broadcasts ≡ c.broadcasts)
      ⊎ ((maker : String) × (taker : String) × (tx : String) × (fetch_both_signed_escrow_psbts
              p.offer_id_hex c'.db
            ≡ ok (some (maker, taker)))
          × (combine_and_broadcast_escrow_psbt x n maker taker ≡ ok tx)
          × (c'.broadcasts ≡ Broadcast.escrow tx ∷ c.broadcasts))

  combine-EscrowOut :
      (p : PsbtSubmissionRequest) (c s : Coordinator) (psbts : Option (String × String))
      → s.broadcasts ≡ c.broadcasts
      → fetch_both_signed_escrow_psbts p.offer_id_hex s.db ≡ ok psbts
      → EscrowOut p c (combine_if_both x n psbts s).1
  combine-EscrowOut p c s none same h = inl same
  combine-EscrowOut p c s (some (maker, taker)) same h =
      with_result (combine_and_broadcast_escrow_psbt x n maker taker) refl
    where
      with_result :
          (r : Result AnyError String)
          → combine_and_broadcast_escrow_psbt x n maker taker ≡ r
          → EscrowOut p c (resume (map_err psbt_invalid r) s (λ tx. sent (Broadcast.escrow tx))).1
      with_result (ok tx) e = inr (maker, taker, tx, h, e, ap (λ l. Broadcast.escrow tx ∷ l) same)
      with_result (err e') e = inl same
      with_result panic e = inl same

  read-EscrowOut :
      (p : PsbtSubmissionRequest) (c s : Coordinator)
      (r : Result AnyError (Option (String × String)))
      → s.broadcasts ≡ c.broadcasts
      → fetch_both_signed_escrow_psbts p.offer_id_hex s.db ≡ r
      → EscrowOut p c (resume (map_err RequestError.database r) s (combine_if_both x n)).1
  read-EscrowOut p c s (ok psbts) same h = combine-EscrowOut p c s psbts same h
  read-EscrowOut p c s (err e) same h = inl same
  read-EscrowOut p c s panic same h = inl same

  insert-EscrowOut :
      (p : PsbtSubmissionRequest) (c s : Coordinator) (r : Result RequestError Bool)
      → s.broadcasts ≡ c.broadcasts
      → EscrowOut p c
          (resume r s (λ inserted. or_fail inserted psbt_already_submitted >>= λ _.
            query RequestError.database (fetch_both_signed_escrow_psbts p.offer_id_hex)
            >>= combine_if_both x n)).1
  insert-EscrowOut p c s (ok true) same =
      read-EscrowOut p c s (fetch_both_signed_escrow_psbts p.offer_id_hex s.db) same refl
  insert-EscrowOut p c s (ok false) same = inl same
  insert-EscrowOut p c s (err e) same = inl same
  insert-EscrowOut p c s panic same = inl same

  -- Handing in a signed escrow psbt sends out at most one transaction, and only when the signed
  -- psbts of both traders are stored afterwards: the one combined from these two.
  pub handle_signed_escrow_psbt-EscrowOut :
      (p : PsbtSubmissionRequest) (c : Coordinator)
      → EscrowOut p c (handle_signed_escrow_psbt x n p c).1
  unfolding handle_signed_escrow_psbt
  handle_signed_escrow_psbt-EscrowOut p c =
      member (is_valid_robohash_in_table x p.robohash_hex p.offer_id_hex c.db)
    where
      member :
          (r : Result AnyError Bool)
          → EscrowOut p c
              (resume (map_err RequestError.database r) c (λ valid.
                or_fail valid RequestError.not_found >>= λ _.
                on_db RequestError.database (insert_signed_escrow_psbt x p) >>= λ inserted.
                or_fail inserted psbt_already_submitted >>= λ _.
                query RequestError.database (fetch_both_signed_escrow_psbts p.offer_id_hex)
                >>= combine_if_both x n)).1
      member (ok true) =
          insert-EscrowOut p c (on_db RequestError.database (insert_signed_escrow_psbt x p) c).1
            (map_err RequestError.database (insert_signed_escrow_psbt x p c.db).0) refl
      member (ok false) = inl refl
      member (err e) = inl refl
      member panic = inl refl

  -- the database after a partial signature has been handed in
  abbrev pub signed_db : PayoutSignatureRequest → Coordinator → CoordinatorDb
  signed_db p c = (insert_partial_sig x p.partial_sig_hex p.offer_id_hex p.robohash_hex c.db).1

  -- what may have gone out with a partial signature
  abbrev pub KeyspendOut : PayoutSignatureRequest → Coordinator → Coordinator → Type 0
  KeyspendOut p c c' =
      (c'.broadcasts ≡ c.broadcasts)
      ⊎ ((context : KeyspendContext) × (tx : String) × (fetch_keyspend_payout_information x
              p.offer_id_hex (signed_db p c)
            ≡ ok (some context))
          × (broadcast_keyspend_tx n context ≡ ok tx)
          × (c'.broadcasts ≡ Broadcast.keyspend tx ∷ c.broadcasts)
          × (fetch_optional (offer_is p.offer_id_hex) c'.db.taken_offers ≡ none))

  finish-KeyspendOut :
      (p : PayoutSignatureRequest) (c : Coordinator) (context : Option KeyspendContext)
      → fetch_keyspend_payout_information x p.offer_id_hex (signed_db p c) ≡ ok context
      → KeyspendOut p c
          (finish_payout x n p.offer_id_hex context (record c { db = signed_db p c })).1
  unfolding delete_complete_offer
  finish-KeyspendOut p c none read = inl refl
  finish-KeyspendOut p c (some context) read =
      resume-cases (KeyspendOut p c)
        (map_err RequestError.coordinator_error (broadcast_keyspend_tx n context))
        (record c { db = signed_db p c }) _ (inl refl)
        (λ tx e. inr (
          context,
          tx,
          read,
          map_err-ok RequestError.coordinator_error (broadcast_keyspend_tx n context) e,
          refl,
          fetch-delete_self (offer_is p.offer_id_hex) (signed_db p c).taken_offers,
        ))

  -- Handing in a partial signature sends out at most one payout transaction, and only one made of
  -- the payout data that the database holds once the signature is stored; the trade is then gone
  -- from the database.
  pub handle_payout_signature-KeyspendOut :
      (p : PayoutSignatureRequest) (c : Coordinator)
      → KeyspendOut p c (handle_payout_signature x n p c).1
  unfolding handle_payout_signature
  handle_payout_signature-KeyspendOut p c = rw (check-state x p.offer_id_hex p.robohash_hex c) (
      resume-cases (KeyspendOut p c)
        (check_offer_and_confirmation x p.offer_id_hex p.robohash_hex c).0 c _ (inl refl)
        (λ _ _.
          resume-cases (KeyspendOut p c)
            (map_err RequestError.database
              (insert_partial_sig x p.partial_sig_hex p.offer_id_hex p.robohash_hex c.db).0)
            (record c { db = signed_db p c }) _ (inl refl)
            (λ _ _.
              resume-cases (KeyspendOut p c)
                (map_err RequestError.database
                  (fetch_keyspend_payout_information x p.offer_id_hex (signed_db p c)))
                (record c { db = signed_db p c }) _ (inl refl)
                (λ context e. finish-KeyspendOut p c context (
                  map_err-ok RequestError.database
                    (fetch_keyspend_payout_information x p.offer_id_hex (signed_db p c)) e)))))
