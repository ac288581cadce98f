-- ===== src/Api/Validate.antt =====
-- The validation of an offer request (communication/api.rs, communication/communication_utils.rs).
use taptrade_core.Prelude.{ℕ, ◌+◌, Bool, true, false, ◌&&◌, leb, ltb, if◌then◌else◌}
use taptrade_core.Api.{OfferRequest}

-- The offer ends between three hours and seven days from now.
unfoldable pub validate_timestamp : ℕ → ℕ → Bool
validate_timestamp unix_timestamp offer_duration_ts =
    if ltb offer_duration_ts (unix_timestamp + 10800)
    then false
    else if ltb (unix_timestamp + 604800) offer_duration_ts
    then false
    else true

-- `range(min, max)` of the validator crate includes both ends.
abbrev pub in_bounds : ℕ → ℕ → ℕ → Bool
in_bounds low high v = leb low v && leb v high

unfoldable pub validate : ℕ → OfferRequest → Bool
unfolding validate_timestamp
validate unix_timestamp offer =
    in_bounds 10000 20000000 offer.amount_satoshi
    && in_bounds 2 50 offer.bond_ratio
    && validate_timestamp unix_timestamp offer.offer_duration_ts
