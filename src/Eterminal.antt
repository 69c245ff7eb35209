-- ===== src/Eterminal.antt =====
-- app/services/eterminal_signal.py. A body is a decoded dictionary; today's date in New York, the
-- settings and what Python's library reads of texts are parameters.
pub mod Laws
use Prim.Native.String.{◌++◌ as append}
use trade_receiver.Prelude.{
  ℕ, ◌+◌, ◌*◌, ◌/◌, String, Bool, true, false, Option, none, some, List, [], ◌∷◌, ◌==◌, ◌||◌, not,
  if◌then◌else◌,
}
use trade_receiver.Prelude.Int.{ℤ, pos, negsuc, Decimal, ltb_ℤ, leb_ℤ}
use trade_receiver.Prelude.Text.{strip, lower}
use trade_receiver.Trade.{Date, TradeIntent, buy_to_open, option, OptionType, call, put, market}
use trade_receiver.Session.{Result, ok, err, value_error}
use trade_receiver.Json.{
  Json, null, string, number, object, Fields, end, field, lookup, or_json, or_else, is_object,
  object_or_empty, str,
}

-- What `Decimal(text)` gives: an amount, NaN or plus infinity, or an error, for which minus infinity,
-- which is passed over in the same way, stands too.
pub data Reading : Type 0 where
  amount : Decimal → Reading
  not_finite : Reading
  malformed : Reading

-- Python's `str` of lists and dictionaries, `Decimal` and `int` of texts, and SHA-256 of
-- `json.dumps(…, sort_keys=True)`.
pub record Library : Type 0 where
  pub show : Json → String
  pub read_amount : String → Reading
  pub read_int : String → Result ℤ
  pub digest : Json → String

pub record Settings : Type 0 where
  pub eterminal_take_profit_pct : Decimal
  pub eterminal_notional_usd : Decimal

-- `body.get(key)`
abbrev pub value_of : String → Fields → Json
value_of key body = or_json (lookup key body) null

abbrev pub has_key : String → Fields → Bool
has_key key body = elim (lookup key body) [ none ↦ false | some j ↦ true ]

abbrev pub is_null : Json → Bool
is_null null = true
is_null _ = false

-- the fields of `value if isinstance(value, dict) else {}`
abbrev pub fields_of : Json → Fields
fields_of (object fs) = fs
fields_of _ = end

unfoldable pub is_eterminal_envelope : Fields → Bool
is_eterminal_envelope body =
    if is_null (value_of "type" body)
    then false
    else has_key "firedAt" body || (has_key "signal" body || has_key "context" body)

-- `str(value or "")`
abbrev pub text_or_empty : Library → Json → String
text_or_empty library j = str library.show (or_else j (string ""))

abbrev pub signal_of : Fields → Fields
signal_of body = fields_of (value_of "signal" body)

unfoldable pub eterminal_idempotency_key : Library → String → Fields → String
eterminal_idempotency_key library user_id body = library.digest (
    object (
      field "user_id" (string user_id) (
        field "source" (string "eterminal") (
          field "type" (value_of "type" body) (
            field "signal_id" (string (text_or_empty library (value_of "id" (signal_of body))))
              (field "firedAt" (value_of "firedAt" body) end))))))

-- to a multiple of five, halves up; five is 50000 ten-thousandths
unfoldable pub round_strike_to_5 : Decimal → Decimal
round_strike_to_5 (negsuc n) = pos 0
round_strike_to_5 (pos n) = pos ((n + 25000) / 50000 * 50000)

-- `Decimal(str(raw))`
abbrev pub reading_of : Library → Json → Reading
reading_of library (number t v) = amount v
reading_of library j = library.read_amount (str library.show j)

-- the first price that can be read and is positive; a comparison with NaN, and the rounding of an
-- infinite price, raise
unfoldable pub first_price : Library → List Json → Result Decimal
first_price library [] = ok (pos 0)
first_price library (raw ∷ raws) =
    let rest = first_price library raws in
    if is_null raw then rest else elim (reading_of library raw) [
      | malformed ↦ rest
      | not_finite ↦ err (value_error "InvalidOperation")
      | amount v ↦ if ltb_ℤ (pos 0) v then ok v else rest
    ]

unfoldable pub target_price : Library → Fields → Result Decimal
unfolding first_price
target_price library body = first_price library (
    value_of "price" (signal_of body)
    ∷ (value_of "currentPrice" (fields_of (value_of "context" body)) ∷ []))

abbrev pub option_type_of : String → OptionType
option_type_of side = if side == "long" then call else put

abbrev pub name_of : OptionType → String
name_of call = "call"
name_of put = "put"

abbrev pub rationale_of : Library → Fields → String → String
rationale_of library signal side = append "eterminal signal " (
    append (str library.show (or_json (lookup "id" signal) (string "")))
      (append " " (append side (append " → SPX " (name_of (option_type_of side))))))

abbrev pub intent_of : Library → Settings → Date → Fields → String → Decimal → TradeIntent
intent_of library settings today signal side strike = record {
  action = buy_to_open;
  asset_class = option;
  underlying = "SPX";
  option_type = option_type_of side;
  strike = strike;
  expiration = some today;
  quantity = pos 1;
  order_type = market;
  limit_price = none;
  confidence = pos 10000;
  rationale = rationale_of library signal side;
  take_profit_pct = some settings.eterminal_take_profit_pct;
  source = "eterminal";
  notional_usd = some settings.eterminal_notional_usd;
  stop_loss_ticks = none;
  profit_target_ticks = none;
  external_id = "";
}

abbrev pub priced :
    Library → Settings → Date → Fields → String → Result Decimal → Result (Option TradeIntent)
priced library settings today signal side (err e) = err e
priced library settings today signal side (ok target) =
    if leb_ℤ target (pos 0)
    then ok none
    else if leb_ℤ (round_strike_to_5 target) (pos 0)
    then ok none
    else ok (some (intent_of library settings today signal side (round_strike_to_5 target)))

abbrev pub side_of : Library → Fields → String
side_of library signal = lower (strip (text_or_empty library (value_of "side" signal)))

abbrev pub is_type_signal : Json → Bool
is_type_signal (string t) = t == "signal"
is_type_signal _ = false

-- the part of a dictionary under "signal"
unfoldable pub map_signal :
    Library → Settings → Date → Fields → Fields → Result (Option TradeIntent)
unfolding round_strike_to_5 target_price
map_signal library settings today body signal =
    if not (side_of library signal == "long" || side_of library signal == "short")
    then ok none
    else priced library settings today signal (side_of library signal) (target_price library body)

unfoldable pub map_eterminal_signal :
    Library → Settings → Date → Fields → Result (Option TradeIntent)
unfolding map_signal
map_eterminal_signal library settings today body =
    if not (is_type_signal (value_of "type" body))
    then ok none
    else if not (is_object (value_of "signal" body))
    then ok none
    else map_signal library settings today body (signal_of body)
