-- ===== src/Execution/TakeProfit.antt =====
-- `_take_profit_price`, `_take_profit_close_intent` and `_persist_take_profit_leg`.
use Prim.Native.Char.{Char, code}
use Prim.Native.String.{◌++◌ as append}
use trade_receiver.Prelude.{
  eqb, ◌||◌, ℕ, ◌+◌, ◌*◌, ◌/◌, String, Bool, true, false, Option, none, some, [], ◌∷◌, ◌++◌, ◌==◌,
  ◌&&◌, suc, if◌then◌else◌, find,
}
use trade_receiver.Prelude.Int.{pos, Decimal, pos_part, leb_ℤ}
use trade_receiver.Trade.{sell_to_close, limit, ValidatedTrade, OrderResult}
use trade_receiver.Tables.{submitted, failed, option_trade, take_profit_leg, TradeExecution, Db}
use trade_receiver.Sizing.{or_price}

-- `entry * (1 + pct)` of positive amounts, to cents with halves up
unfoldable pub take_profit_of : ℕ → ℕ → Decimal
take_profit_of entry pct = pos ((2 * (entry * (10000 + pct)) + 1000000) / 2000000 * 100)

abbrev pub entry_price : Option Decimal → ℕ → Option Decimal
entry_price none pct = none
entry_price (some entry) pct =
    if leb_ℤ entry (pos 0) then none else some (take_profit_of (pos_part entry) pct)

unfoldable pub take_profit_price : ValidatedTrade → Option Decimal
take_profit_price validated = elim validated.take_profit_pct [
  | none ↦ none
  | some pct ↦
      if leb_ℤ pct (pos 0)
      then none
      else entry_price (or_price validated.ask (or_price validated.limit_price validated.bid))
          (pos_part pct)
]

is_mark : Char → Bool
is_mark c = eqb (code c) 32 || eqb (code c) 183

-- `strip(" ·")` of a text that begins with a letter
unfoldable pub rstrip_marks : String → String
unfolding is_mark
rstrip_marks String.[] = String.[]
rstrip_marks (String.◌∷◌ c s) =
    let rest = rstrip_marks s in if is_mark c && rest == "" then String.[] else String.◌∷◌ c rest

unfoldable pub take_profit_close_intent : ValidatedTrade → Decimal → ValidatedTrade
unfolding rstrip_marks
take_profit_close_intent validated tp_price = record validated {
  action = sell_to_close;
  order_type = limit;
  limit_price = some tp_price;
  take_profit_pct = none;
  rationale = rstrip_marks (append "take-profit exit · " validated.rationale);
}

-- a text that is not empty
abbrev pub nonempty : Option String → Option String
nonempty none = none
nonempty (some t) = if t == "" then none else some t

abbrev pub or_text : Option String → Option String → Option String
or_text none b = b
or_text (some t) b = some t

abbrev pub prefixed : Option String → Option String
prefixed none = none
prefixed (some order_id) = some (append "tp-" order_id)

-- the broker's identifier of the leg, or one made from the entry's
unfoldable pub leg_order_id : OrderResult → Option String → Option String
leg_order_id result entry_order_id =
    or_text (nonempty result.take_profit_order_id) (prefixed (nonempty entry_order_id))

abbrev pub has_order_id : String → String → TradeExecution → Bool
has_order_id user_id order_id row =
    row.user_id == user_id && elim row.broker_order_id [ none ↦ false | some id ↦ id == order_id ]

-- `broker_payload.get("take_profit_ok", True)`
abbrev pub leg_ok : OrderResult → Bool
leg_ok result = elim result.take_profit_ok [ none ↦ true | some ok ↦ ok ]

abbrev pub leg_row :
    ValidatedTrade → Decimal → OrderResult → TradeExecution → String → ℕ → TradeExecution
leg_row validated tp_price result entry order_id id = record entry {
  id = id;
  status = if leg_ok result then submitted else failed;
  fill_price = some tp_price;
  pnl = none;
  broker_order_id = some order_id;
  intent_json = option_trade (take_profit_close_intent validated tp_price);
  broker_response = take_profit_leg entry.broker_order_id entry.id tp_price (leg_ok result);
}

abbrev pub append_row : TradeExecution → Db → Db
append_row row db = record db { executions = db.executions ++ row ∷ []; next_id = suc db.next_id }

-- the row is added unless one of the user has the order already
unfoldable pub add_unless : Option TradeExecution → TradeExecution → Db → Db
add_unless (some existing) row db = db
add_unless none row db = append_row row db

unfoldable pub add_leg : ValidatedTrade → Decimal → OrderResult → TradeExecution → String → Db → Db
unfolding take_profit_close_intent add_unless
add_leg validated tp_price result entry order_id db =
    add_unless (find (has_order_id entry.user_id order_id) db.executions)
      (leg_row validated tp_price result entry order_id db.next_id) db

-- `_persist_take_profit_leg`; the other columns of the leg are those of its entry, whose trade it is
unfoldable pub add_leg_as :
    ValidatedTrade → Decimal → OrderResult → TradeExecution → Option String → Db → Db
add_leg_as validated tp_price result entry none db = db
add_leg_as validated tp_price result entry (some order_id) db =
    add_leg validated tp_price result entry order_id db
