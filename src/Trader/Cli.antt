-- ===== src/Trader/Cli.antt =====
-- The trader's prompts and settings, and its start (cli/mod.rs, main.rs, and wallet/mod.rs,
-- `get_wallet_xprv` and `load_wallet`).
use taptrade_core.Prelude.{
  ℕ, String, Option, none, some, List, [], ◌∷◌, str_eq, Bytes, if◌then◌else◌,
}
use taptrade_core.Prelude.Parse.{parse_unsigned, lower_eq, trim}
use taptrade_core.Prelude.Result.{Result, ok, ok_or, and_then}
use taptrade_core.Prelude.Word.{add_u64, mul_u64}
use taptrade_core.Errors.{AnyError, external}
use taptrade_core.Trader.Settings.{OfferType, buy, sell, TraderSettings, TraderWallet}
use taptrade_core.Trader.Session.{Program, done, failed, panicked, waiting, stop, lift, ◌>>=◌}
use taptrade_core.Trader.Flows.{run_maker, run_taker}

-- What the machine and the crates answer.
pub record Machine : Type 0 where
  -- sha2, and `hex::encode`
  pub sha256 : String → Bytes
  pub hex_encode : Bytes → String
  -- `dotenvy::from_filename`, by the environment's variables after it
  pub from_filename : String → Result AnyError (String → Option String)
  -- the seconds since the epoch
  pub now : Result AnyError ℕ
  -- `ExtendedPrivKey::from_str`, and `new_master` of a new seed
  pub parse_xprv : String → Result AnyError String
  pub new_master : Result AnyError String
  -- `Client::new` of an electrum endpoint, by the text of the client
  pub new_client : String → Result AnyError String
  -- `Wallet::new` of the templates of a key, with what it answers once it has been synchronised
  pub new_wallet : String → Result AnyError TraderWallet
  -- `sync` with a client, `get_balance`, and the address that is printed with it
  pub sync : String → TraderWallet → Result AnyError (Unit {0})
  pub get_balance : TraderWallet → Result AnyError ℕ
  pub first_address : TraderWallet → Result AnyError String

pub data CliSettings : Type 0 where
  coordinator : CliSettings
  taker maker : TraderSettings → CliSettings

abbrev pub next_line : List String → Program String
next_line [] s = (waiting, s)
next_line (line ∷ later) s = (done (trim line), record s { lines = later })

abbrev pub get_user_input : Program String
get_user_input s = next_line s.lines s

-- `.parse()`, with its error, and `.parse().unwrap()`
abbrev pub parse : ℕ → String → Result AnyError ℕ
parse w text = ok_or (parse_unsigned w text) (external "ParseIntError")

abbrev pub unwrapped : Option ℕ → Program ℕ
unwrapped none s = (panicked, s)
unwrapped (some n) s = (done n, s)

-- the amount that the trader buys or sells
abbrev pub ask_amount : (ℕ → OfferType) → Program OfferType
ask_amount of_value = do
  line ← get_user_input
  amount ← unwrapped (parse_unsigned 64 line)
  stop (done (of_value amount))

abbrev pub offer_type_of : String → Program OfferType
offer_type_of trade_type =
    if str_eq trade_type "buy"
    then ask_amount buy
    else if str_eq trade_type "sell"
    then ask_amount sell
    else stop panicked

unfoldable pub get_trade_type : Option String → Program OfferType
get_trade_type (some value) = offer_type_of value
get_trade_type none = get_user_input >>= offer_type_of

module _ (m : Machine) where
  unfoldable pub hours_to_ts : String → Result AnyError ℕ
  hours_to_ts hours = and_then (parse 64 hours) λ duration.
      and_then m.now λ now. and_then (mul_u64 duration 3600) λ seconds. add_u64 now seconds

  abbrev pub get_wallet_xprv : Option String → Result AnyError String
  get_wallet_xprv (some xprv) = m.parse_xprv xprv
  get_wallet_xprv none = m.new_master

  abbrev pub check_xprv_input : Option String → Result AnyError String
  check_xprv_input (some user_input) =
      if str_eq user_input "" then get_wallet_xprv none else get_wallet_xprv (some user_input)
  check_xprv_input none = get_wallet_xprv none

  unfoldable pub get_trader_settings : Program TraderSettings
  unfolding get_trade_type hours_to_ts
  get_trader_settings = do
    electrum_endpoint ← get_user_input
    coordinator_endpoint ← get_user_input
    robot_key ← get_user_input
    trade_type ← get_trade_type none
    payout_address ← get_user_input
    ratio_line ← get_user_input
    bond_ratio ← lift (parse 8 ratio_line)
    xprv_line ← get_user_input
    wallet_xprv ← lift (check_xprv_input (some xprv_line))
    hours_line ← get_user_input
    duration_unix_ts ← lift (hours_to_ts hours_line)
    stop (
        done (record {
          electrum_endpoint = electrum_endpoint;
          coordinator_endpoint = coordinator_endpoint;
          robosats_robohash_hex = m.hex_encode (m.sha256 robot_key);
          trade_type = trade_type;
          payout_address = payout_address;
          bond_ratio = bond_ratio;
          wallet_xprv = wallet_xprv;
          duration_unix_ts = duration_unix_ts;
        }))

  -- `env::var`
  abbrev pub var : (String → Option String) → String → Result AnyError String
  var env name = ok_or (env name) (external "VarError")

  unfoldable pub load_from_env : String → Program TraderSettings
  unfolding get_trade_type hours_to_ts
  load_from_env filename = do
    env ← lift (m.from_filename filename)
    electrum_endpoint ← lift (var env "ELECTRUM_ENDPOINT")
    coordinator_endpoint ← lift (var env "COORDINATOR_ENDPOINT")
    robosats_robohash_hex ← lift (var env "ROBOHASH_HEX")
    type_value ← lift (var env "TRADE_TYPE")
    trade_type ← get_trade_type (some type_value)
    payout_address ← lift (var env "PAYOUT_ADDRESS")
    ratio_value ← lift (var env "BOND_RATIO")
    bond_ratio ← lift (parse 8 ratio_value)
    xprv_value ← lift (var env "XPRV")
    wallet_xprv ← lift (check_xprv_input (some xprv_value))
    hours_value ← lift (var env "OFFER_DURATION_HOURS")
    duration_unix_ts ← lift (hours_to_ts hours_value)
    stop (
        done (record {
          electrum_endpoint = electrum_endpoint;
          coordinator_endpoint = coordinator_endpoint;
          robosats_robohash_hex = robosats_robohash_hex;
          trade_type = trade_type;
          payout_address = payout_address;
          bond_ratio = bond_ratio;
          wallet_xprv = wallet_xprv;
          duration_unix_ts = duration_unix_ts;
        }))

  abbrev pub settings_by : String → String → Program TraderSettings
  settings_by maybe_filename line =
      if str_eq line "y"
      then load_from_env maybe_filename
      else if str_eq line "N"
      then get_trader_settings
      else stop (failed (external "Not a valid input!"))

  unfoldable pub parse_trader_settings : String → Program TraderSettings
  unfolding load_from_env get_trader_settings
  parse_trader_settings maybe_filename = get_user_input >>= settings_by maybe_filename

  abbrev pub cli_settings_by : String → Program CliSettings
  cli_settings_by mode =
      if lower_eq mode "maker"
      then parse_trader_settings "maker.env" >>= (λ t. stop (done (CliSettings.maker t)))
      else if lower_eq mode "taker"
      then parse_trader_settings "taker.env" >>= (λ t. stop (done (CliSettings.taker t)))
      else stop (failed (external "Either select maker or taker!"))

  unfoldable pub parse_cli_args : Program CliSettings
  unfolding parse_trader_settings lower_eq
  parse_cli_args = get_user_input >>= cli_settings_by

  -- The public key is a field of the wallet.
  unfoldable pub load_wallet : TraderSettings → Result AnyError TraderWallet
  load_wallet trader_config = and_then (m.new_client trader_config.electrum_endpoint) λ backend.
      and_then (m.new_wallet trader_config.wallet_xprv) λ wallet.
        and_then (m.sync backend wallet) λ synchronised.
          and_then (m.get_balance wallet)
            λ balance. and_then (m.first_address wallet) λ address. ok wallet

  -- `load_wallet` is the first call of `run_maker` and of `run_taker`.
  unfoldable pub start_trade_pipeline : CliSettings → Program (Unit {0})
  unfolding run_maker run_taker load_wallet
  start_trade_pipeline (CliSettings.maker maker_config) =
      lift (load_wallet maker_config) >>= λ w. run_maker w maker_config
  start_trade_pipeline (CliSettings.taker taker_config) =
      lift (load_wallet taker_config) >>= λ w. run_taker w taker_config
  start_trade_pipeline CliSettings.coordinator =
      stop (failed (external "Wrong trading mode selected"))

  unfoldable pub main : Program (Unit {0})
  unfolding parse_cli_args start_trade_pipeline
  main = parse_cli_args >>= start_trade_pipeline
