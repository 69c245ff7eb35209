-- ===== src/Schwab.antt =====
-- app/brokers/schwab.py. Log-in, `authorization_url`, is left out; times are seconds. A POST sends an
-- order or the form that refreshes the access token.
pub mod Account
pub mod Laws
use Prim.Native.String.{◌++◌ as append}
use trade_receiver.Prelude.{
  ℕ, ◌+◌, String, Bool, true, false, not, Option, none, some, List, [], ◌∷◌, ◌==◌, ◌||◌, eqb, leb,
  if◌then◌else◌,
}
use trade_receiver.Prelude.Int.{ℤ, Decimal}
use trade_receiver.Prelude.Text.{upper, lower}
use trade_receiver.Trade.{OptionContract, OrderResult}
use trade_receiver.Session.{Result, ok, err}
use trade_receiver.Json.{Json, string, get, or_else, str}
use trade_receiver.Http.{
  Call, post_call, Response, Http, Net, ◌>>=◌, pure, lift, request, read_body, is_failure,
}
use trade_receiver.Tradier.{refusal, acceptance}

pub record SchwabAdapter : Type 0 where
  pub access_token : String
  pub account_hash : String
  pub refresh_token : String
  pub expires_at : Option ℕ

-- One entry of "orderLegCollection".
pub record Leg : Type 0 where
  pub instruction : String
  pub quantity : ℤ
  pub symbol : String
  pub asset_type : String

-- An order: its single leg, and the price and leg of the limit order that it triggers, if there is
-- one. The other keys, such as the durations, are fixed by that.
pub record SchwabOrder : Type 0 where
  pub leg : Leg
  pub child : Option (Decimal × Leg)

pub data Post : Type 0 where
  order_body : SchwabOrder → Post
  refresh_form : String → Post

abbrev pub trader_base : String
trader_base = "https://api.schwabapi.com/trader/v1"

unfoldable pub schwab_option_instruction : String → String
schwab_option_instruction side =
    if side == "buy_to_open"
    then "BUY_TO_OPEN"
    else if side == "sell_to_close"
    then "SELL_TO_CLOSE"
    else if side == "buy"
    then "BUY"
    else if side == "sell"
    then "SELL"
    else upper side

abbrev pub missing_hash : OrderResult
missing_hash = refusal "Schwab account hash missing — reconnect broker"

-- `str(body.get("orderId") or body.get("order_id") or "")`
unfoldable pub order_id_of : (Json → String) → Json → Result String
order_id_of show body = elim (get "orderId" body) [
  | err e ↦ err e
  | ok a ↦ elim (get "order_id" body) [
    | err e ↦ err e
    | ok b ↦ ok (str show (or_else (or_else a b) (string "")))
  ]
]

unfoldable pub read_order : (Json → String) → Response → Json → Result OrderResult
read_order show resp body =
    if is_failure resp
    then ok (refusal (str show body))
    else elim (order_id_of show body) [ err e ↦ err e | ok order_id ↦ ok (acceptance order_id) ]

abbrev pub orders_url : SchwabAdapter → String
orders_url a = append trader_base (append "/accounts/" (append a.account_hash "/orders"))

abbrev pub answer_order : Http Post → Response → Net Post OrderResult
answer_order http resp = read_body resp (read_order http.show resp)

unfoldable pub place_live_order : Http Post → SchwabAdapter → SchwabOrder → Net Post OrderResult
unfolding request read_body
place_live_order http a order = if a.account_hash == "" then pure missing_hash else (do
  resp ← request http (post_call (orders_url a) (order_body order))
  answer_order http resp)

abbrev pub option_leg : OptionContract → ℤ → String → Leg
option_leg contract quantity instruction = record {
  instruction = instruction;
  quantity = quantity;
  symbol = contract.symbol;
  asset_type = "OPTION";
}

unfoldable pub place_order :
    Http Post → SchwabAdapter → OptionContract → ℤ → String → String → Net Post OrderResult
unfolding place_live_order
place_order http a contract quantity side mode =
    if mode == "paper"
    then pure (acceptance (append "paper-schwab-" contract.symbol))
    else place_live_order http a (record {
      leg = option_leg contract quantity (schwab_option_instruction side);
      child = none;
    })

abbrev pub trigger_order : OptionContract → ℤ → Decimal → SchwabOrder
trigger_order contract quantity tp = record {
  leg = option_leg contract quantity "BUY_TO_OPEN";
  child = some (tp, option_leg contract quantity "SELL_TO_CLOSE");
}

-- `raw_response` is not kept: a refusal whose body is a list, which cannot be extended with marks, is
-- answered like the others.
unfoldable pub place_order_with_take_profit :
    Http Post
    → SchwabAdapter
    → OptionContract
    → ℤ
    → String
    → String
    → Decimal
    → Net Post OrderResult
unfolding place_order place_live_order
place_order_with_take_profit http a contract quantity side mode take_profit_price =
    if mode == "paper"
    then pure (acceptance (append "paper-schwab-oto-" contract.symbol))
    else if not (side == "buy_to_open")
    then place_order http a contract quantity side mode
    else place_live_order http a (trigger_order contract quantity take_profit_price)

abbrev pub equity_leg : String → ℤ → String → Leg
equity_leg symbol quantity side = record {
  instruction = if lower side == "buy" then "BUY" else "SELL";
  quantity = quantity;
  symbol = upper symbol;
  asset_type = "EQUITY";
}

unfoldable pub place_equity_order :
    Http Post → SchwabAdapter → String → ℤ → String → String → Net Post OrderResult
unfolding place_live_order
place_equity_order http a symbol quantity side mode =
    if mode == "paper"
    then pure (acceptance (append "paper-schwab-" symbol))
    else place_live_order http a (record { leg = equity_leg symbol quantity side; child = none })

-- sixty seconds before the token expires; without a time it never does
unfoldable pub token_needs_refresh : SchwabAdapter → ℕ → Bool
token_needs_refresh a now = elim a.expires_at [
  | none ↦ false
  | some expires_at ↦ if eqb expires_at 0 then false else leb expires_at (now + 60)
]

abbrev after_refresh : Response → Net Post (Option Json)
after_refresh resp = if is_failure resp then pure none else (do j ← lift resp.json; pure (some j))

unfoldable pub refresh_access_token : Http Post → SchwabAdapter → Net Post (Option Json)
unfolding request
refresh_access_token http a = if a.refresh_token == "" then pure none else (do
  resp ←
      request http
        (post_call "https://api.schwabapi.com/v1/oauth/token" (refresh_form a.refresh_token))
  after_refresh resp)
