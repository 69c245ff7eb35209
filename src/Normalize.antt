-- ===== src/Normalize.antt =====
-- app/services/webhook_normalize.py, the payloads of app/schemas/trade.py, the reading of a futures
-- payload in app/services/futures_trade.py, and `resolve_idempotency_key` of
-- app/services/ingest_pipeline.py. What Pydantic's `model_validate` gives is a parameter.
pub mod Laws
use Prim.Native.String.{◌++◌ as append}
use trade_receiver.Prelude.{
  ℕ, suc, String, Bool, true, false, Option, none, some, List, [], ◌∷◌, ◌++◌, ◌==◌, ◌||◌, ◌&&◌, not,
  ◌/◌, if◌then◌else◌,
}
use trade_receiver.Prelude.Int.{ℤ, pos, negsuc, ◌-ℤ◌, max_ℤ}
use trade_receiver.Prelude.Text.{strip, upper}
use trade_receiver.Trade.{TradeIntent, buy_to_open, sell_to_close, future, call, market, limit}
use trade_receiver.Session.{Result, ok, err, Error, value_error}
use trade_receiver.Json.{
  Json, null, string, number, object, Fields, end, field, lookup, or_json, or_else, str,
}
use trade_receiver.Eterminal.{
  Library, Settings, map_eterminal_signal, value_of, has_key, is_null, signal_of, text_or_empty,
  is_eterminal_envelope, eterminal_idempotency_key,
}
use trade_receiver.Pipeline.{World}
use trade_receiver.NinjaTrader.{ninjatrader_futures_symbol}

pub record WebhookPayload : Type 0 where
  pub app_id : String
  pub title : String
  pub subtitle : String
  pub body : String
  pub delivered_date : Json
  pub delivered_date_iso : String
  pub platform : String

-- The footer's text, if there is a footer, as `str` shows it.
pub record DiscordEmbed : Type 0 where
  pub title : Option String
  pub description : Option String
  pub footer_text : Option String

pub record Validators : Type 0 where
  pub webhook_payload : Fields → Result WebhookPayload
  pub discord_payload : Fields → Result (List DiscordEmbed)

-- `sep.join(p for p in parts if p)`
unfoldable pub join_nonempty : String → List String → String
join_nonempty sep [] = ""
join_nonempty sep (p ∷ parts) =
    let rest = join_nonempty sep parts in
    if p == "" then rest else if rest == "" then p else append p (append sep rest)

abbrev pub validation_error : Error
validation_error = value_error "Input should be a valid string"

-- `WebhookPayload(app_id=…, title=…, body=…)`: a field of type `str` takes no `None`
abbrev pub discord_as_payload : String → Option String → Option String → Result WebhookPayload
discord_as_payload app_id (some title) (some body) = ok (record {
  app_id = app_id;
  title = title;
  subtitle = "";
  body = body;
  delivered_date = null;
  delivered_date_iso = "";
  platform = "";
})
discord_as_payload app_id _ _ = err validation_error

abbrev pub part_of : Option String → List String
part_of none = []
part_of (some t) = t ∷ []

unfoldable pub parts_of : List DiscordEmbed → List String
parts_of [] = []
parts_of (e ∷ es) = part_of e.title ++ (part_of e.description ++ parts_of es)

abbrev pub footer_or : String → Option String → String
footer_or found none = found
footer_or found (some t) = if t == "" then found else t

-- the text of the last footer that has one
unfoldable pub app_id_of : String → List DiscordEmbed → String
app_id_of found [] = found
app_id_of found (e ∷ es) = app_id_of (footer_or found e.footer_text) es

abbrev pub first_payload : String → List DiscordEmbed → Result WebhookPayload
first_payload app_id [] = discord_as_payload app_id (some "") (some "")
first_payload app_id (e ∷ es) = discord_as_payload app_id e.title e.description

abbrev pub with_text : String → Result WebhookPayload → Result (String × WebhookPayload)
with_text text (ok payload) = ok (text, payload)
with_text text (err e) = err e

unfoldable pub normalize_discord : Result (List DiscordEmbed) → Result (String × WebhookPayload)
normalize_discord (err e) = err e
normalize_discord (ok embeds) =
    with_text (join_nonempty "\n\n" (parts_of embeds)) (first_payload (app_id_of "" embeds) embeds)

unfoldable pub normalize_plain : Result WebhookPayload → Result (String × WebhookPayload)
normalize_plain (err e) = err e
normalize_plain (ok payload) =
    ok (join_nonempty "\n" (payload.title ∷ (payload.subtitle ∷ (payload.body ∷ []))), payload)

abbrev pub eterminal_title : Library → Fields → String
eterminal_title library body =
    append "eterminal " (str library.show (or_json (lookup "type" body) (string "event")))

abbrev pub eterminal_body : Library → Fields → String
eterminal_body library signal = append "signal_id=" (
    append (text_or_empty library (value_of "id" signal)) (
      append " side=" (
        append (text_or_empty library (value_of "side" signal))
          (append " price=" (str library.show (value_of "price" signal))))))

abbrev pub eterminal_payload : Library → Fields → WebhookPayload
eterminal_payload library body = record {
  app_id = "eterminal";
  title = eterminal_title library body;
  subtitle = "";
  body = eterminal_body library (signal_of body);
  delivered_date = null;
  delivered_date_iso = text_or_empty library (value_of "firedAt" body);
  platform = "eterminal";
}

unfoldable pub normalize_webhook_body :
    Library → Validators → Fields → Result (String × WebhookPayload)
unfolding join_nonempty normalize_discord normalize_plain
normalize_webhook_body library validators body =
    if is_eterminal_envelope body
    then ok (
      join_nonempty "\n"
          (eterminal_title library body ∷ (eterminal_body library (signal_of body) ∷ [])),
      eterminal_payload library body,
    )
    else if has_key "embeds" body
    then normalize_discord (validators.discord_payload body)
    else normalize_plain (validators.webhook_payload body)

-- what the key is the digest of
abbrev pub key_json : String → WebhookPayload → Json
key_json user_id payload = object (
    field "user_id" (string user_id) (
      field "title" (string payload.title) (
        field "subtitle" (string payload.subtitle) (
          field "body" (string payload.body) (field "delivered_date" payload.delivered_date end)))))

unfoldable pub idempotency_key : Library → String → WebhookPayload → String
idempotency_key library user_id payload = library.digest (key_json user_id payload)

abbrev pub text_at : Library → String → Fields → String
text_at library key body = str library.show (or_json (lookup key body) (string ""))

unfoldable pub is_futures_order_payload : Library → Fields → Bool
is_futures_order_payload library body =
    let action = upper (text_at library "action" body) in
    (action == "BUY" || action == "SELL") && not (strip (text_at library "symbol" body) == "")

-- `int(value)`: a number is cut off towards zero
abbrev pub int_of : Library → Json → Result ℤ
int_of library (number t (pos n)) = ok (pos (n / 10000))
int_of library (number t (negsuc n)) = ok (pos 0 -ℤ pos (suc n / 10000))
int_of library j = library.read_int (str library.show j)

abbrev pub optional_int : Library → Json → Result (Option ℤ)
optional_int library null = ok none
optional_int library j = elim (int_of library j) [ err e ↦ err e | ok n ↦ ok (some n) ]

abbrev pub ticks_of : Library → String → String → Fields → Result (Option ℤ)
ticks_of library key other body =
    optional_int library (or_json (lookup key body) (value_of other body))

abbrev pub futures_intent : Library → String → Fields → ℤ → Option ℤ → Option ℤ → TradeIntent
futures_intent library uuid body quantity stop_loss profit_target = record {
  action = if upper (text_at library "action" body) == "BUY" then buy_to_open else sell_to_close;
  asset_class = future;
  underlying = ninjatrader_futures_symbol (strip (text_at library "symbol" body));
  option_type = call;
  strike = pos 0;
  expiration = none;
  quantity = max_ℤ (pos 1) quantity;
  order_type =
      if upper (
          str library.show (
            or_else (or_else (value_of "orderType" body) (value_of "order_type" body))
              (string "MARKET")))
        == "LIMIT"
      then limit
      else market;
  limit_price = none;
  confidence = pos 10000;
  rationale = "structured futures webhook";
  take_profit_pct = none;
  source = "futures_json";
  notional_usd = none;
  stop_loss_ticks = stop_loss;
  profit_target_ticks = profit_target;
  external_id = str library.show (or_else (value_of "id" body) (string uuid));
}

unfoldable pub map_futures_order_payload : Library → String → Fields → Result TradeIntent
map_futures_order_payload library uuid body =
    elim (int_of library (or_else (value_of "quantity" body) (number "1" (pos 10000)))) [
      | err e ↦ err e
      | ok quantity ↦ elim (ticks_of library "stopLossTicks" "stop_loss_ticks" body) [
        | err e ↦ err e
        | ok stop_loss ↦ elim (ticks_of library "profitTargetTicks" "profit_target_ticks" body) [
          | err e ↦ err e
          | ok profit_target ↦
              ok (futures_intent library uuid body quantity stop_loss profit_target)
        ]
      ]
    ]

abbrev pub webhook_json : Option String → Json
webhook_json none = null
webhook_json (some t) = string t

-- `f"{webhook_id}:{key}" if webhook_id else key`
abbrev pub with_webhook : Option String → String → String
with_webhook none key = key
with_webhook (some t) key = if t == "" then key else append t (append ":" key)

abbrev pub futures_key : Library → String → Option String → Fields → String
futures_key library user_id webhook_id body = with_webhook webhook_id (
    library.digest (
      object (
        field "user_id" (string user_id)
          (field "webhook_id" (webhook_json webhook_id) (field "body" (object body) end)))))

abbrev pub payload_key :
    Library → String → Option String → Result (String × WebhookPayload) → Result String
payload_key library user_id webhook_id (err e) = err e
payload_key library user_id webhook_id (ok (text, payload)) =
    ok (with_webhook webhook_id (idempotency_key library user_id payload))

unfoldable pub resolve_idempotency_key :
    Library → Validators → String → Fields → Option String → Result String
unfolding normalize_webhook_body idempotency_key
resolve_idempotency_key library validators user_id body webhook_id =
    if is_eterminal_envelope body
    then ok (eterminal_idempotency_key library user_id body)
    else if is_futures_order_payload library body
    then ok (futures_key library user_id webhook_id body)
    else payload_key library user_id webhook_id (normalize_webhook_body library validators body)

abbrev pub text_of : Result (String × WebhookPayload) → Result String
text_of (err e) = err e
text_of (ok (text, payload)) = ok text

abbrev pub key_or_empty : Result String → String
key_or_empty (err e) = ""
key_or_empty (ok key) = key

-- The pipeline's readers of a body. A key is asked for only once the body could be normalised.
abbrev pub payload_world : Library → Validators → Settings → World Fields → World Fields
payload_world library validators settings world = record world {
  normalized_text = λ body. text_of (normalize_webhook_body library validators body);
  resolve_idempotency_key = λ user body webhook_id.
      key_or_empty (resolve_idempotency_key library validators user.id body webhook_id);
  is_eterminal_envelope = is_eterminal_envelope;
  map_eterminal_signal = map_eterminal_signal library settings world.today;
}
