-- ===== src/Trader/Typed.antt =====
-- What the typed settings of a trader become (cli/mod.rs), and what the coordinator makes of them
-- (communication/api.rs, `validate`).
use taptrade_core.Prelude.{
  ℕ, ◌+◌, ◌*◌, ◌≤◌, ◌<◌, ◌^◌, ◌≡◌, String, true, Option, some, List, ◌∷◌, ◌⊎◌, inl, inr, str_eq,
  refl, arith,
}
use taptrade_core.Prelude.Parse.{parse_unsigned, lower_eq, trim}
use taptrade_core.Prelude.Word.{in_range-ok}
use taptrade_core.Prelude.Result.{ok}
use taptrade_core.Errors.{AnyError}
use taptrade_core.Api.Validate.{validate}
use taptrade_core.Coordinator.Orders.{validate-Acceptable}
use taptrade_core.Trader.Settings.{OfferType, buy, sell, value, TraderSettings}
use taptrade_core.Trader.Requests.{format_order_request}
use taptrade_core.Trader.Session.{done, Session}
use taptrade_core.Trader.Cli.{
  Machine, CliSettings, get_trader_settings, load_from_env, check_xprv_input, hours_to_ts,
  parse_trader_settings, parse_cli_args, get_trade_type,
}

-- the lines that are typed, in the order of the prompts
pub record Typed : Type 0 where
  pub electrum_endpoint : String
  pub coordinator_endpoint : String
  pub robot_key : String
  pub trade_type : String
  pub amount : String
  pub payout_address : String
  pub bond_ratio : String
  pub xprv : String
  pub hours : String

abbrev pub lines_of : Typed → List String → List String
lines_of d later =
    d.electrum_endpoint ∷ d.coordinator_endpoint ∷ d.robot_key ∷ d.trade_type ∷ d.amount
    ∷ d.payout_address ∷ d.bond_ratio ∷ d.xprv ∷ d.hours ∷ later

module _ (m : Machine) (d : Typed) where
  -- The values of a file are the typed lines without the space around them, but for the robohash,
  -- which is the hash of the typed robot key.
  pub record SameTexts (env : String → Option String) : Type 0 where
    pub electrum_endpoint : env "ELECTRUM_ENDPOINT" ≡ some (trim d.electrum_endpoint)
    pub coordinator_endpoint : env "COORDINATOR_ENDPOINT" ≡ some (trim d.coordinator_endpoint)
    pub robohash : env "ROBOHASH_HEX" ≡ some (m.hex_encode (m.sha256 (trim d.robot_key)))
    pub trade_type : env "TRADE_TYPE" ≡ some (trim d.trade_type)
    pub payout_address : env "PAYOUT_ADDRESS" ≡ some (trim d.payout_address)
    pub bond_ratio : env "BOND_RATIO" ≡ some (trim d.bond_ratio)
    pub xprv : env "XPRV" ≡ some (trim d.xprv)
    pub hours : env "OFFER_DURATION_HOURS" ≡ some (trim d.hours)

  -- When the values of a file are the typed lines without the space around them, and its robohash is
  -- the hash of the typed robot key, loading the file gives the settings that typing the lines
  -- gives, or fails with the same error or the same panic. The amount is typed in both cases.
  pub load_from_env-typed :
      (filename : String) (env : String → Option String) (s : Session) (later : List String)
      → m.from_filename filename ≡ ok env
      → SameTexts env
      → (load_from_env m filename (record s { lines = d.amount ∷ later })).0
        ≡ (get_trader_settings m (record s { lines = lines_of d later })).0
  unfolding load_from_env get_trader_settings get_trade_type
  load_from_env-typed filename env s later e t = rw e (
      rw (t.electrum_endpoint, t.coordinator_endpoint, t.robohash, t.trade_type)
        (rw (t.payout_address, t.bond_ratio, t.xprv, t.hours) (ground arith)))

module _ (m : Machine) (d : Typed) where
  -- the settings of an offer with this ratio, private key and end
  abbrev pub settings : OfferType → ℕ → String → ℕ → TraderSettings
  settings t ratio key ts = record {
    electrum_endpoint = trim d.electrum_endpoint;
    coordinator_endpoint = trim d.coordinator_endpoint;
    robosats_robohash_hex = m.hex_encode (m.sha256 (trim d.robot_key));
    trade_type = t;
    payout_address = trim d.payout_address;
    bond_ratio = ratio;
    wallet_xprv = key;
    duration_unix_ts = ts;
  }

  hours_to_ts-week :
      {h now : ℕ}
      → parse_unsigned 64 (trim d.hours) ≡ some h
      → m.now ≡ ok now
      → h ≤ 168
      → now < 2 ^ 63
      → hours_to_ts m (trim d.hours) ≡ ok (now + h * 3600)
  unfolding hours_to_ts
  hours_to_ts-week {h} {now} p n le lt =
      rw (p, n)
        (rw
          (
            in_range-ok {E = AnyError} (h * 3600) (omega arith),
            in_range-ok {E = AnyError} (now + h * 3600) (omega arith),
          )
          refl)

  -- what the texts say
  record Reads (t : OfferType) (ratio : ℕ) (key : String) (ts : ℕ) : Type 0 where
    kind :
        ((trim d.trade_type ≡ "buy") × (buy (value t) ≡ t))
        ⊎ ((trim d.trade_type ≡ "sell") × (sell (value t) ≡ t))
    amount : parse_unsigned 64 (trim d.amount) ≡ some (value t)
    ratio_read : parse_unsigned 8 (trim d.bond_ratio) ≡ some ratio
    key_read : check_xprv_input m (some (trim d.xprv)) ≡ ok key
    end_read : hours_to_ts m (trim d.hours) ≡ ok ts

  get_trader_settings-typed :
      (s : Session) (later : List String) {t : OfferType} {ratio ts : ℕ} {key : String}
      → Reads t ratio key ts
      → get_trader_settings m (record s { lines = lines_of d later })
        ≡ (done (settings t ratio key ts), record s { lines = later })
  unfolding get_trader_settings get_trade_type str_eq
  get_trader_settings-typed s later {t} r = elim r.kind [
    | inl (e, is) ↦ rw (e, r.amount, r.ratio_read) (rw (r.key_read, r.end_read, is) refl)
    | inr (e, is) ↦ rw (e, r.amount, r.ratio_read) (rw (r.key_read, r.end_read, is) refl)
  ]

  -- an order with these settings, when it arrives within an hour
  order-Acceptable :
      (t : OfferType) (ratio h now arrival : ℕ) (key : String)
      → 10000 ≤ value t
      → value t ≤ 20000000
      → 2 ≤ ratio
      → ratio ≤ 50
      → 4 ≤ h
      → h ≤ 168
      → now ≤ arrival
      → arrival ≤ now + 3600
      → validate arrival (format_order_request (settings t ratio key (now + h * 3600))) ≡ true
  order-Acceptable t ratio h now arrival key a b c e f g i j =
      (validate-Acceptable arrival _).1 (record {
        amount_low = a;
        amount_high = b;
        ratio_low = c;
        ratio_high = e;
        not_too_soon = omega arith;
        not_too_late = omega arith;
      })

  -- A maker who types `buy` or `sell`, 10000 to 20000000 sat, a ratio of 2 to 50 percent and 4 to 168
  -- hours, and whose private key and clock can be read, gets exactly the settings that the lines
  -- say, with the lines after them left to be read, and the coordinator accepts the order for them
  -- if it arrives within an hour. The clock has to be below 2^63 seconds.
  pub parse_cli_args-accepted :
      (s : Session) (mode : String) (later : List String) {t : OfferType} {ratio h now : ℕ}
      {key : String}
      → lower_eq (trim mode) "maker" ≡ true
      → ((trim d.trade_type ≡ "buy") × (buy (value t) ≡ t))
        ⊎ ((trim d.trade_type ≡ "sell") × (sell (value t) ≡ t))
      → parse_unsigned 64 (trim d.amount) ≡ some (value t)
      → parse_unsigned 8 (trim d.bond_ratio) ≡ some ratio
      → parse_unsigned 64 (trim d.hours) ≡ some h
      → check_xprv_input m (some (trim d.xprv)) ≡ ok key
      → m.now ≡ ok now
      → 10000 ≤ value t
      → value t ≤ 20000000
      → 2 ≤ ratio
      → ratio ≤ 50
      → 4 ≤ h
      → h ≤ 168
      → now < 2 ^ 63
      → (parse_cli_args m (record s { lines = mode ∷ "N" ∷ lines_of d later }) ≡ (
        done (CliSettings.maker (settings t ratio key (now + h * 3600))),
        record s { lines = later },
      ))
        × ((arrival : ℕ)
            → now ≤ arrival
            → arrival ≤ now + 3600
            → validate arrival (format_order_request (settings t ratio key (now + h * 3600)))
              ≡ true)
  unfolding parse_cli_args parse_trader_settings str_eq trim
  parse_cli_args-accepted s mode later {t} {ratio} {h} {now} {key} is_maker kind a r hs k n l1 l2 l3
        l4 l5 l6 lt =
      let reads : Reads t ratio key (now + h * 3600) = record {
        kind = kind;
        amount = a;
        ratio_read = r;
        key_read = k;
        end_read = hours_to_ts-week hs n l6 lt;
      } in
      (
        rw is_maker (rw (get_trader_settings-typed s later reads) refl),
        λ arrival i j. order-Acceptable t ratio h now arrival key l1 l2 l3 l4 l5 l6 i j,
      )
