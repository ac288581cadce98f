-- ===== src/Database/Once.antt =====
-- What each trader submits once: the signed escrow psbt and the partial signature (database/mod.rs).
use taptrade_core.Prelude.{
  String, ◌≡◌, refl, Bool, true, false, is_some, inl, inr, Bool-cases, Option-cases,
}
use mathlib.Core.Option
use taptrade_core.Prelude.Result.{ok, err, resume-ok}
use taptrade_core.Errors.{already_submitted}
use taptrade_core.Externals.{Externals}
use taptrade_core.Api.{PsbtSubmissionRequest}
use taptrade_core.Sql.{fetch_optional}
use taptrade_core.Sql.Rows.{fetch-update}
use taptrade_core.Database.Tables.{CoordinatorDb, TakenOffer}
use taptrade_core.Database.Taken.{
  offer_is, update_taken, is_maker_in_taken_offers, signed_escrow_psbt_of, set_signed_escrow_psbt,
  insert_signed_escrow_psbt,
}
use taptrade_core.Database.Payout.{partial_sig_of, set_partial_sig, insert_partial_sig}

-- a write that leaves the trade's id and its traders alone
pub record KeepsTraders (f : TakenOffer → TakenOffer) : Type 0 where
  pub same_offer : (r : TakenOffer) → (f r).offer_id ≡ r.offer_id
  pub same_maker : (r : TakenOffer) → (f r).robohash_maker ≡ r.robohash_maker
  pub same_taker : (r : TakenOffer) → (f r).robohash_taker ≡ r.robohash_taker

pub fetch-update_taken :
    (offer_id : String) (f : TakenOffer → TakenOffer) (db : CoordinatorDb)
    → KeepsTraders f
    → fetch_optional (offer_is offer_id) (update_taken (offer_is offer_id) f db).taken_offers
      ≡ Option.map f (fetch_optional (offer_is offer_id) db.taken_offers)
fetch-update_taken offer_id f db keep =
    fetch-update (offer_is offer_id) f db.taken_offers (λ r. rw (keep.same_offer r))

pub set_signed-KeepsTraders : (m : Bool) (s : String) → KeepsTraders (set_signed_escrow_psbt m s)
set_signed-KeepsTraders true s = record {
  same_offer = λ r. refl;
  same_maker = λ r. refl;
  same_taker = λ r. refl;
}
set_signed-KeepsTraders false s = record {
  same_offer = λ r. refl;
  same_maker = λ r. refl;
  same_taker = λ r. refl;
}

set_partial-KeepsTraders : (m : Bool) (s : String) → KeepsTraders (set_partial_sig m s)
set_partial-KeepsTraders true s = record {
  same_offer = λ r. refl;
  same_maker = λ r. refl;
  same_taker = λ r. refl;
}
set_partial-KeepsTraders false s = record {
  same_offer = λ r. refl;
  same_maker = λ r. refl;
  same_taker = λ r. refl;
}

signed-set :
    (m : Bool) (s : String) (r : TakenOffer)
    → is_some (signed_escrow_psbt_of m (set_signed_escrow_psbt m s r)) ≡ true
signed-set true s r = refl
signed-set false s r = refl

partial-set :
    (m : Bool) (s : String) (r : TakenOffer)
    → is_some (partial_sig_of m (set_partial_sig m s r)) ≡ true
partial-set true s r = refl
partial-set false s r = refl

module _ (x : Externals) where
  pub is_maker-update :
      (offer_id robohash_hex : String) (f : TakenOffer → TakenOffer) (db : CoordinatorDb)
      → KeepsTraders f
      → is_maker_in_taken_offers x offer_id robohash_hex (update_taken (offer_is offer_id) f db)
        ≡ is_maker_in_taken_offers x offer_id robohash_hex db
  unfolding is_maker_in_taken_offers
  is_maker-update offer_id robohash_hex f db keep =
      rw (fetch-update_taken offer_id f db keep)
        (elim (Option-cases (fetch_optional (offer_is offer_id) db.taken_offers)) [
          | inl e ↦ rw e
          | inr (r, e) ↦ rw e (rw (keep.same_maker r, keep.same_taker r))
        ])

  -- After a call that has succeeded, whether or not it stored its psbt, a further psbt of the same
  -- trader for the same offer is refused with `false` and changes nothing.
  pub insert_signed_escrow_psbt-once :
      (signed : PsbtSubmissionRequest) (later : String) (db : CoordinatorDb) {stored : Bool}
      → (insert_signed_escrow_psbt x signed db).0 ≡ ok stored
      → insert_signed_escrow_psbt x
          (record signed { signed_psbt_hex = later })
          (insert_signed_escrow_psbt x signed db).1
        ≡ (ok false, (insert_signed_escrow_psbt x signed db).1)
  unfolding insert_signed_escrow_psbt
  insert_signed_escrow_psbt-once signed later db h =
      let (m, is_m, _) =
        resume-ok (is_maker_in_taken_offers x signed.offer_id_hex signed.robohash_hex db) db _ h in
      elim (Option-cases (fetch_optional (offer_is signed.offer_id_hex) db.taken_offers)) [
        | inl e ↦ cc (rw (is_m, e) at h)
        | inr (r, e) ↦ elim (Bool-cases (is_some (signed_escrow_psbt_of m r))) [
          | inl f ↦ rw (is_m, e, f) (rw (is_m, e, f))
          | inr f ↦
              let keep = set_signed-KeepsTraders m signed.signed_psbt_hex in
              rw (is_m, e, f)
                (rw
                  (
                    is_maker-update signed.offer_id_hex signed.robohash_hex
                        (set_signed_escrow_psbt m signed.signed_psbt_hex) db keep,
                    is_m,
                  )
                  (rw
                    (
                      fetch-update_taken signed.offer_id_hex
                          (set_signed_escrow_psbt m signed.signed_psbt_hex) db keep,
                      e,
                    )
                    (rw (signed-set m signed.signed_psbt_hex r) refl)))
        ]
      ]

  -- After a partial signature has been stored, a further one of the same trader for the same offer
  -- fails with `already_submitted` and changes nothing.
  pub insert_partial_sig-once :
      (sig later offer_id robohash_hex : String) (db : CoordinatorDb)
      → (insert_partial_sig x sig offer_id robohash_hex db).0 ≡ ok tt
      → insert_partial_sig x later offer_id robohash_hex
          (insert_partial_sig x sig offer_id robohash_hex db).1
        ≡ (err already_submitted, (insert_partial_sig x sig offer_id robohash_hex db).1)
  unfolding insert_partial_sig
  insert_partial_sig-once sig later offer_id robohash_hex db h =
      let (m, is_m, _) = resume-ok (is_maker_in_taken_offers x offer_id robohash_hex db) db _ h in
      elim (Option-cases (fetch_optional (offer_is offer_id) db.taken_offers)) [
        | inl e ↦ cc (rw (is_m, e) at h)
        | inr (r, e) ↦ elim (Bool-cases (is_some (partial_sig_of m r))) [
          | inl f ↦ cc (rw (is_m, e, f) at h)
          | inr f ↦
              let keep = set_partial-KeepsTraders m sig in
              rw (is_m, e, f)
                (rw (is_maker-update offer_id robohash_hex (set_partial_sig m sig) db keep, is_m)
                  (rw (fetch-update_taken offer_id (set_partial_sig m sig) db keep, e)
                    (rw (partial-set m sig r) refl)))
        ]
      ]
