-- ===== src/Tests/Prompts.antt =====
-- The settings of a trader at concrete lines of input.
use taptrade_core.Prelude.{
  ◌≡◌, ◌+◌, ◌*◌, ◌≤◌, ℕ, String, Option, none, some, true, [], ◌∷◌, str_eq, if◌then◌else◌, refl,
  inl, arith,
}
use taptrade_core.Prelude.Parse.{parse_unsigned, lower_eq, trim, trim_start, trim_end}
use taptrade_core.Prelude.Result.{ok}
use taptrade_core.Api.Validate.{validate}
use taptrade_core.Trader.Settings.{buy, TraderSettings}
use taptrade_core.Trader.Requests.{format_order_request}
use taptrade_core.Trader.Session.{done, panicked, Session}
use taptrade_core.Trader.Cli.{
  Machine, CliSettings, get_trade_type, get_trader_settings, load_from_env, parse_cli_args,
}
use taptrade_core.Trader.Typed.{
  Typed, SameTexts, lines_of, settings, load_from_env-typed, parse_cli_args-accepted,
}
use taptrade_core.Tests.Traders.{wallet}

abbrev maker_env : String → Option String
maker_env name =
    if str_eq name "ELECTRUM_ENDPOINT"
    then some "tcp://localhost:50001"
    else if str_eq name "COORDINATOR_ENDPOINT"
    then some "http://127.0.0.1:9999"
    else if str_eq name "ROBOHASH_HEX"
    then some "26ee"
    else if str_eq name "TRADE_TYPE"
    then some "buy"
    else if str_eq name "PAYOUT_ADDRESS"
    then some "tb1p"
    else if str_eq name "BOND_RATIO"
    then some "5"
    else if str_eq name "XPRV"
    then some "tprv"
    else if str_eq name "OFFER_DURATION_HOURS"
    then some "48"
    else none

abbrev pub machine : Machine
machine = record {
  sha256 = λ s. 38 ∷ 238 ∷ [];
  hex_encode = λ b. "26ee";
  from_filename = λ f. ok maker_env;
  now = ok 1700000000;
  parse_xprv = λ s. ok s;
  new_master = ok "new";
  new_client = λ e. ok e;
  new_wallet = λ k. ok wallet;
  sync = λ c w. ok tt;
  get_balance = λ w. ok 1505000;
  first_address = λ w. w.payout_address;
}

-- a ratio with a space on either side
abbrev typed : Typed
typed = record {
  electrum_endpoint = "tcp://localhost:50001";
  coordinator_endpoint = "http://127.0.0.1:9999";
  robot_key = "robot21";
  trade_type = "buy";
  amount = "1000000";
  payout_address = "tb1p";
  bond_ratio = " 5 ";
  xprv = "tprv";
  hours = "48";
}

abbrev empty : Session
empty = record { answers = []; lines = []; requests = [] }

-- an upper-case mode, and the lines of the settings
abbrev typing : Session
typing = record empty { lines = "MAKER" ∷ "N" ∷ lines_of typed ("y" ∷ []) }

abbrev typed_settings : TraderSettings
typed_settings = settings machine typed (buy 1000000) 5 "tprv" (1700000000 + 48 * 3600)

parse_cli_args-accepted_example :
    (parse_cli_args machine typing
      ≡ (done (CliSettings.maker typed_settings), record empty { lines = "y" ∷ [] }))
    × ((arrival : ℕ)
        → 1700000000 ≤ arrival
        → arrival ≤ 1700000000 + 3600
        → validate arrival (format_order_request typed_settings) ≡ true)
unfolding lower_eq parse_unsigned str_eq trim trim_start trim_end
parse_cli_args-accepted_example =
    parse_cli_args-accepted machine typed empty "MAKER" ("y" ∷ []) {t = buy 1000000} {ratio = 5}
      {h = 48} {now = 1700000000} {key = "tprv"} refl (inl (refl, refl)) refl refl refl refl refl
      (omega arith) (omega arith) (omega arith) (omega arith) (omega arith) (omega arith)
      (omega arith)

same_texts : SameTexts machine typed maker_env
unfolding str_eq trim trim_start trim_end
same_texts = record {
  electrum_endpoint = refl;
  coordinator_endpoint = refl;
  robohash = refl;
  trade_type = refl;
  payout_address = refl;
  bond_ratio = refl;
  xprv = refl;
  hours = refl;
}

load_from_env-typed_example :
    (load_from_env machine "maker.env" (record empty { lines = "1000000" ∷ [] })).0
    ≡ (get_trader_settings machine (record empty { lines = lines_of typed [] })).0
load_from_env-typed_example =
    load_from_env-typed machine typed "maker.env" maker_env empty [] refl same_texts

-- A ratio above 255 is refused, a sign may stand before an amount, and an amount that is no number
-- ends the program.
ratio_too_large : parse_unsigned 8 "256" ≡ none
unfolding parse_unsigned
ratio_too_large = refl

signed_amount : parse_unsigned 64 "+21" ≡ some 21
unfolding parse_unsigned
signed_amount = refl

no_amount : (get_trade_type (some "sell") (record empty { lines = "many" ∷ [] })).0 ≡ panicked
unfolding get_trade_type str_eq parse_unsigned trim trim_start trim_end
no_amount = refl
