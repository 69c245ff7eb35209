-- ===== src/Orders/Pnl.antt =====
-- `compute_close_pnl`: the profit of a close against the average price of the filled opens.
pub mod Laws
use trade_receiver.Prelude.{
  ℕ, ◌+◌, ◌-◌, ◌*◌, ◌/◌, ◌%◌, String, Bool, true, false, Option, none, some, List, [], ◌∷◌, ◌==◌,
  ◌||◌, ◌&&◌, ltb, eqb, if◌then◌else◌,
}
use trade_receiver.Prelude.Int.{
  ℤ, pos, negsuc, Decimal, pos_part, leb_ℤ, eqb_ℤ, floor_div, ◌+ℤ◌, ◌-ℤ◌, ◌*ℤ◌,
}
use trade_receiver.Prelude.Text.{contains}
use trade_receiver.Trade.{Action, sell_to_close}
use trade_receiver.Tables.{
  ExecutionStatus, filled, IntentJson, option_trade, futures_trade, TradeExecution,
}

abbrev pub is_sell_to_close : Action → Bool
is_sell_to_close sell_to_close = true
is_sell_to_close _ = false

abbrev pub is_filled : ExecutionStatus → Bool
is_filled filled = true
is_filled _ = false

-- `"sell_to_close" in row.intent_json`: the dump has the action and every text of the trade
unfoldable pub mentions_close : IntentJson → Bool
mentions_close (option_trade t) =
    is_sell_to_close t.action
    || (contains t.underlying "sell_to_close"
        || (contains t.rationale "sell_to_close"
            || (contains t.broker "sell_to_close"
                || (contains t.contract_symbol "sell_to_close"
                    || contains t.source "sell_to_close"))))
mentions_close (futures_trade t) =
    contains t.symbol "sell_to_close"
    || (contains t.rationale "sell_to_close"
        || (contains t.broker "sell_to_close" || contains t.external_id "sell_to_close"))

-- the rows that the query selects
abbrev pub of_position : String → String → TradeExecution → Bool
of_position user_id contract_symbol row =
    row.user_id == user_id && (row.contract_symbol == contract_symbol && is_filled row.status)

-- the price at which a row opened a position: closes and rows without a price are passed over
unfoldable pub open_price : TradeExecution → Option Decimal
open_price row = elim row.fill_price [
  | none ↦ none
  | some p ↦ if mentions_close row.intent_json || eqb_ℤ p (pos 0) then none else some p
]

pub record Opens : Type 0 where
  pub cost : ℤ
  pub quantity : ℤ

abbrev pub add_open : Option Decimal → ℤ → Opens → Opens
add_open none quantity o = o
add_open (some p) quantity o = record {
  cost = o.cost +ℤ p *ℤ quantity;
  quantity = o.quantity +ℤ quantity;
}

unfoldable pub sum_opens : String → String → List TradeExecution → Opens → Opens
sum_opens user_id contract_symbol [] o = o
sum_opens user_id contract_symbol (row ∷ rows) o = sum_opens user_id contract_symbol rows (
    if of_position user_id contract_symbol row then add_open (open_price row) row.quantity o else o)

abbrev pub is_even : ℤ → Bool
is_even (pos n) = eqb (n % 2) 0
is_even (negsuc n) = eqb (n % 2) 1

-- the quotient by a positive number, to the nearest integer and halves to even
unfoldable pub round_div : ℤ → ℕ → ℤ
round_div n d =
    let q = floor_div n d in
    let r = pos_part (n -ℤ q *ℤ pos d) in
    if ltb (2 * r) d
    then q
    else if ltb d (2 * r)
    then q +ℤ pos 1
    else if is_even q
    then q
    else q +ℤ pos 1

-- (fill - cost / open) * quantity * 100, rounded to cents
unfoldable pub pnl_of : Opens → ℤ → Decimal → Option Decimal
pnl_of o quantity fill =
    if leb_ℤ o.quantity (pos 0)
    then none
    else some
        (round_div ((fill *ℤ o.quantity -ℤ o.cost) *ℤ quantity) (pos_part o.quantity) *ℤ pos 100)

abbrev pub no_opens : Opens
no_opens = record { cost = pos 0; quantity = pos 0 }

unfoldable pub compute_close_pnl :
    List TradeExecution → String → String → ℤ → Option Decimal → Option Decimal
compute_close_pnl executions user_id contract_symbol quantity none = none
compute_close_pnl executions user_id contract_symbol quantity (some fill) =
    if contract_symbol == ""
    then none
    else pnl_of (sum_opens user_id contract_symbol executions no_opens) quantity fill
