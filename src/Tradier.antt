-- ===== src/Tradier.antt =====
-- app/brokers/tradier.py and app/brokers/tradier_env.py. Log-in, `authorization_url` and
-- `exchange_code`, is left out. A POST sends a form; its numbers stand for their texts.
pub mod Account
pub mod Laws
pub mod Positions
use Prim.Native.String.{◌++◌ as append}
use trade_receiver.Prelude.{
  ℕ, suc, ◌+◌, ◌*◌, ◌/◌, ◌%◌, ltb, String, Bool, true, false, not, Option, none, some, List, [],
  ◌∷◌, ◌==◌, ◌||◌, ◌&&◌, if◌then◌else◌,
}
use trade_receiver.Prelude.Int.{ℤ, pos, negsuc, ◌-ℤ◌, Decimal}
use trade_receiver.Prelude.Text.{upper, lower, contains}
use trade_receiver.Trade.{Date, OptionContract, OptionType, call, put, OrderResult}
use trade_receiver.Session.{Result, ok, err, Error, value_error, runtime_error}
use trade_receiver.Broker.{Position}
use trade_receiver.Json.{
  Json, null, string, array, object, Items, nil, cons, end, get, get_or, or_else, is_object, str,
  iterate,
}
use trade_receiver.Http.{
  Call, get_call, post_call, Response, Http, Net, ◌>>=◌, pure, lift, request, read_body, is_failure,
  fetch,
}

pub data Environment : Type 0 where
  sandbox live : Environment

abbrev pub environment_of_base : String → Environment
environment_of_base base = if contains (lower base) "sandbox" then sandbox else live

-- `settings.tradier_api_base` decides if the value is none of the two
unfoldable pub normalize_tradier_environment : String → Option String → Environment
normalize_tradier_environment settings_base none = environment_of_base settings_base
normalize_tradier_environment settings_base (some value) =
    if value == "sandbox"
    then sandbox
    else if value == "live"
    then live
    else environment_of_base settings_base

unfoldable pub tradier_api_base : Environment → String
tradier_api_base sandbox = "https://sandbox.tradier.com/v1"
tradier_api_base live = "https://api.tradier.com/v1"

pub record TradierAdapter : Type 0 where
  pub access_token : String
  pub account_id : String
  pub base : String

abbrev pub or_empty : Option String → String
or_empty none = ""
or_empty (some t) = t

-- the bases end in no slash, so `rstrip("/")` leaves them alone
unfoldable pub make_adapter :
    String → Option String → Option String → Option String → Result TradierAdapter
make_adapter settings_base access_token account_id environment =
    if or_empty access_token == ""
    then err (value_error "Tradier connection missing access token")
    else ok (record {
      access_token = or_empty access_token;
      account_id = or_empty account_id;
      base = tradier_api_base (normalize_tradier_environment settings_base environment);
    })

pub data Field : Type 0 where
  text : String → Field
  integer : ℤ → Field
  amount : Decimal → Field

abbrev pub Form : Type 0
Form = List (String × Field)

abbrev pub orders_url : TradierAdapter → String
orders_url a = append a.base (append "/accounts/" (append a.account_id "/orders"))

abbrev pub refusal : String → OrderResult
refusal message = record {
  success = false;
  order_id = none;
  take_profit_order_id = none;
  take_profit_ok = none;
  error = some message;
}

abbrev pub acceptance : String → OrderResult
acceptance order_id = record {
  success = true;
  order_id = some order_id;
  take_profit_order_id = none;
  take_profit_ok = none;
  error = none;
}

abbrev pub missing_account : OrderResult
missing_account = refusal "Tradier account id missing on connection"

-- paper orders stay here, unless the account is one of the sandbox
abbrev pub is_simulated : TradierAdapter → String → Bool
is_simulated a mode = mode == "paper" && not (contains a.base "sandbox")

abbrev pub option_form : OptionContract → ℤ → String → Form
option_form contract quantity side =
    ("class", text "option")
    ∷ (("symbol", text contract.underlying)
        ∷ (("option_symbol", text contract.symbol)
            ∷ (("side", text side)
                ∷ (("quantity", integer quantity)
                    ∷ (("type", text "market") ∷ (("duration", text "day") ∷ []))))))

abbrev pub take_profit_form : OptionContract → ℤ → Decimal → Form
take_profit_form contract quantity tp =
    ("class", text "option")
    ∷ (("symbol", text contract.underlying)
        ∷ (("option_symbol", text contract.symbol)
            ∷ (("side", text "sell_to_close")
                ∷ (("quantity", integer quantity)
                    ∷ (("type", text "limit")
                        ∷ (("price", amount tp) ∷ (("duration", text "gtc") ∷ [])))))))

abbrev pub equity_form : String → ℤ → String → Form
equity_form symbol quantity side =
    ("class", text "equity")
    ∷ (("symbol", text (upper symbol))
        ∷ (("side", text side)
            ∷ (("quantity", integer quantity)
                ∷ (("type", text "market") ∷ (("duration", text "day") ∷ [])))))

-- `str(body.get("order", {}).get("id", ""))`
unfoldable pub order_id_of : (Json → String) → Json → Result String
order_id_of show body = elim (get_or "order" (object end) body) [
  | err e ↦ err e
  | ok order ↦ elim (get_or "id" (string "") order) [ err e ↦ err e | ok id ↦ ok (str show id) ]
]

unfoldable pub read_order : (Json → String) → Response → Json → Result OrderResult
read_order show resp body =
    if is_failure resp
    then ok (refusal (str show body))
    else elim (order_id_of show body) [ err e ↦ err e | ok order_id ↦ ok (acceptance order_id) ]

abbrev pub answer_order : Http Form → Response → Net Form OrderResult
answer_order http resp = read_body resp (read_order http.show resp)

-- the POST that `place_order` and `place_equity_order` share
unfoldable pub post_order : Http Form → TradierAdapter → Form → Net Form OrderResult
unfolding request read_body
post_order http a data_form = do
  resp ← request http (post_call (orders_url a) data_form)
  answer_order http resp

unfoldable pub place_order :
    Http Form → TradierAdapter → OptionContract → ℤ → String → String → Net Form OrderResult
place_order http a contract quantity side mode =
    if a.account_id == ""
    then pure missing_account
    else if is_simulated a mode
    then pure (acceptance (append "paper-" contract.symbol))
    else post_order http a (option_form contract quantity side)

unfoldable pub place_equity_order :
    Http Form → TradierAdapter → String → ℤ → String → String → Net Form OrderResult
place_equity_order http a symbol quantity side mode =
    if a.account_id == ""
    then pure missing_account
    else if is_simulated a mode
    then pure (acceptance (append "paper-" symbol))
    else post_order http a (equity_form symbol quantity side)

-- `quantize(Decimal("0.01"))`: to cents, halves to the even cent
abbrev cents : ℕ → ℕ
cents n =
    if ltb (n % 100) 50
    then n / 100
    else if ltb 50 (n % 100)
    then n / 100 + 1
    else n / 100 + n / 100 % 2

unfoldable pub quantize : Decimal → Decimal
quantize (pos n) = pos (cents n * 100)
quantize (negsuc n) = pos 0 -ℤ pos (cents (suc n) * 100)

-- `str((tp_body.get("order") or {}).get("id", ""))`
unfoldable pub leg_id_of : (Json → String) → Json → Result String
leg_id_of show body = elim (get "order" body) [
  | err e ↦ err e
  | ok order ↦ elim (get_or "id" (string "") (or_else order (object end))) [
    | err e ↦ err e
    | ok id ↦ ok (str show id)
  ]
]

abbrev pub with_leg : OrderResult → String → OrderResult
with_leg entry leg_id = record {
  success = true;
  order_id = entry.order_id;
  take_profit_order_id = some leg_id;
  take_profit_ok = some true;
  error = none;
}

abbrev pub without_leg : OrderResult → String → OrderResult
without_leg entry message = record {
  success = true;
  order_id = entry.order_id;
  take_profit_order_id = none;
  take_profit_ok = some false;
  error = some (append "entry filled but take-profit failed: " message);
}

unfoldable pub read_leg : (Json → String) → OrderResult → Response → Json → Result OrderResult
read_leg show entry resp tp_body =
    if is_failure resp
    then ok (without_leg entry (str show tp_body))
    else elim (leg_id_of show tp_body) [ err e ↦ err e | ok leg_id ↦ ok (with_leg entry leg_id) ]

abbrev pub answer_leg : Http Form → OrderResult → Response → Net Form OrderResult
answer_leg http entry resp = read_body resp (read_leg http.show entry resp)

unfoldable pub post_leg : Http Form → TradierAdapter → Form → OrderResult → Net Form OrderResult
unfolding request read_body
post_leg http a tp_data entry =
    if not entry.success
    then pure entry
    else (do resp ← request http (post_call (orders_url a) tp_data); answer_leg http entry resp)

unfoldable pub place_order_with_take_profit :
    Http Form
    → TradierAdapter
    → OptionContract
    → ℤ
    → String
    → String
    → Decimal
    → Net Form OrderResult
unfolding place_order post_leg
place_order_with_take_profit http a contract quantity side mode take_profit_price =
    if a.account_id == ""
    then pure missing_account
    else if is_simulated a mode
    then pure (acceptance (append "paper-mkt-tp-" contract.symbol))
    else if not (side == "buy_to_open")
    then place_order http a contract quantity side mode
    else (do
      entry ← place_order http a contract quantity side mode
      post_leg http a (take_profit_form contract quantity (quantize take_profit_price)) entry)
