-- ===== src/Execution.antt =====
-- app/services/execute_trade.py: from a validated option trade to the broker and the database.
pub mod TakeProfit
pub mod Modes
pub mod Effects
pub mod Laws
pub mod Outcomes
use trade_receiver.Prelude.{
  ℕ, String, Bool, true, false, not, Option, none, some, List, [], ◌∷◌, ◌++◌, ◌==◌, ◌&&◌, eqb, suc,
  if◌then◌else◌, update,
}
use trade_receiver.Prelude.Int.{ℤ, Decimal}
use trade_receiver.Trade.{
  Action, buy_to_open, sell_to_close, skip, ValidatedTrade, OptionContract, OrderResult,
  ValidationError,
}
use trade_receiver.Tables.{
  User, Reason, InboundAlert, ExecutionStatus, filled, submitted, failed, skipped,
  validation_failed, Instrument, option, option_trade, BrokerResponse, errors, error,
  broker_payload, TradeExecution, Db,
}
use trade_receiver.Session.{
  M, ◌>>=◌, ◌>>◌, pure, lift, get_db, modify_db, send, option_order, commit, Session, Result,
}
use trade_receiver.Broker.{BrokerAdapter}
use trade_receiver.Orders.{validate_close_position}
use trade_receiver.Orders.Fill.{resolve_fill}
use trade_receiver.Orders.Pnl.{is_sell_to_close, compute_close_pnl}
use TakeProfit.{take_profit_price, leg_order_id, add_leg_as, append_row}

abbrev pub is_buy_to_open : Action → Bool
is_buy_to_open buy_to_open = true
is_buy_to_open _ = false

-- `mode`: live trading must be enabled
unfoldable pub effective_mode : User → String
effective_mode user =
    if user.default_mode == "live" && not user.live_trading_enabled
    then "paper"
    else user.default_mode

abbrev pub contract_of : ValidatedTrade → OptionContract
contract_of validated = record {
  symbol = validated.contract_symbol;
  underlying = validated.underlying;
  option_type = validated.option_type;
  strike = validated.strike;
  expiration = validated.expiration;
  bid = validated.bid;
  ask = validated.ask;
  open_interest = validated.open_interest;
}

-- the columns that every execution row of a trade has
abbrev pub execution_row :
    User → ℕ → ValidatedTrade → ExecutionStatus → BrokerResponse → ℕ → TradeExecution
execution_row user alert_id validated status response id = record {
  id = id;
  user_id = user.id;
  alert_id = alert_id;
  broker = validated.broker;
  mode = effective_mode user;
  status = status;
  underlying = validated.underlying;
  instrument = option validated.option_type validated.strike validated.expiration;
  quantity = validated.quantity;
  contract_symbol = validated.contract_symbol;
  fill_price = none;
  pnl = none;
  intent_json = option_trade validated;
  broker_response = response;
  broker_order_id = none;
}

-- `db.add(execution)`, with a fresh identifier
unfoldable pub add_execution : (ℕ → TradeExecution) → M TradeExecution
add_execution make = do db ← get_db; let row = make db.next_id; modify_db (append_row row); pure row

-- `alert.processed = True`, and `alert.skip_reason = reason` where there is one
abbrev pub mark : Option Reason → InboundAlert → InboundAlert
mark none a = record a { processed = true }
mark (some r) a = record a { processed = true; skip_reason = some r }

unfoldable pub mark_processed : ℕ → Option Reason → M (Unit {0})
mark_processed alert_id reason =
    modify_db (λ d. record d { alerts = update (λ a. eqb a.id alert_id) (mark reason) d.alerts })

unfoldable pub order_answer :
    BrokerAdapter → ValidatedTrade → String → Option Decimal → M OrderResult
order_answer adapter validated mode none s =
    lift
      (adapter.place_order s.orders (contract_of validated) validated.quantity
        (is_buy_to_open validated.action) mode)
      s
order_answer adapter validated mode (some tp) s =
    lift
      (adapter.place_order_with_take_profit s.orders (contract_of validated) validated.quantity
        (is_buy_to_open validated.action) mode tp)
      s

-- the order goes out before the answer is known
unfoldable pub place : BrokerAdapter → ValidatedTrade → String → Option Decimal → M OrderResult
unfolding order_answer
place adapter validated mode tp_price = do
  send (
      option_order validated.contract_symbol validated.quantity (is_buy_to_open validated.action)
        mode tp_price)
  order_answer adapter validated mode tp_price

unfoldable pub reject_invalid : User → ℕ → ValidatedTrade → M TradeExecution
unfolding add_execution
reject_invalid user alert_id validated = do
  row ←
      add_execution (
        execution_row user alert_id validated validation_failed
          (errors validated.validation_errors))
  commit
  pure row

unfoldable pub skip_close : User → ℕ → ValidatedTrade → Reason → M TradeExecution
unfolding add_execution mark_processed
skip_close user alert_id validated pos_error = do
  row ← add_execution (execution_row user alert_id validated skipped (error pos_error))
  mark_processed alert_id (some pos_error)
  commit
  pure row

abbrev pub after_result : OrderResult → ExecutionStatus → ExecutionStatus
after_result result status = if result.success then status else failed

abbrev pub close_pnl :
    User → ValidatedTrade → ExecutionStatus → Option Decimal → Db → Option Decimal
close_pnl user validated filled fill_price db =
    if is_sell_to_close validated.action
    then compute_close_pnl db.executions user.id validated.contract_symbol validated.quantity
        fill_price
    else none
close_pnl user validated _ fill_price db = none

abbrev pub is_open_status : ExecutionStatus → Bool
is_open_status filled = true
is_open_status submitted = true
is_open_status _ = false

unfoldable pub leg_if : ValidatedTrade → Option Decimal → OrderResult → TradeExecution → Db → Db
leg_if validated none result row db = db
leg_if validated (some tp_price) result row db =
    add_leg_as validated tp_price result row (leg_order_id result row.broker_order_id) db

unfoldable pub persist_leg :
    ValidatedTrade → Option Decimal → OrderResult → TradeExecution → M (Unit {0})
unfolding leg_if
persist_leg validated tp_price result row = modify_db (leg_if validated tp_price result row)

-- the row of an order that was placed
abbrev pub result_row :
    User
    → ℕ
    → ValidatedTrade
    → Option Decimal
    → OrderResult
    → ExecutionStatus
    → Option Decimal
    → Option Decimal
    → ℕ
    → TradeExecution
result_row user alert_id validated tp_price result status fill_price pnl id =
    record (execution_row user alert_id validated status
      (broker_payload tp_price validated.take_profit_pct) id) {
        fill_price = fill_price;
        pnl = pnl;
        broker_order_id = result.order_id;
      }

-- the price of the leg that is recorded, if one is
abbrev pub leg_price : ExecutionStatus → OrderResult → Option Decimal → Option Decimal
leg_price status result tp_price =
    if is_open_status status && result.success then tp_price else none

unfoldable pub record_result :
    User
    → ℕ
    → ValidatedTrade
    → Option Decimal
    → OrderResult
    → ExecutionStatus
    → Option Decimal
    → M TradeExecution
unfolding add_execution mark_processed persist_leg
record_result user alert_id validated tp_price result status fill_price = do
  db ← get_db
  row ← add_execution (
      result_row user alert_id validated tp_price result status fill_price
        (close_pnl user validated status fill_price db))
  persist_leg validated (leg_price status result tp_price) result row
  mark_processed alert_id none
  commit
  pure row

unfoldable pub record_fill :
    User
    → ℕ
    → ValidatedTrade
    → Option Decimal
    → OrderResult
    → ExecutionStatus × Option Decimal
    → M TradeExecution
record_fill user alert_id validated tp_price result (status, fill_price) =
    record_result user alert_id validated tp_price result (after_result result status) fill_price

unfoldable pub after_answer :
    User → ℕ → ValidatedTrade → BrokerAdapter → Option Decimal → OrderResult → M TradeExecution
after_answer user alert_id validated adapter tp_price result = do
  fill ← resolve_fill adapter result.order_id validated.ask
  record_fill user alert_id validated tp_price result fill

abbrev pub tp_price_of : ValidatedTrade → Option Decimal
tp_price_of validated =
    if is_buy_to_open validated.action then take_profit_price validated else none

unfoldable pub submit_order : User → ℕ → ValidatedTrade → BrokerAdapter → M TradeExecution
submit_order user alert_id validated adapter = do
  result ← place adapter validated (effective_mode user) (tp_price_of validated)
  after_answer user alert_id validated adapter (tp_price_of validated) result

-- the position check of a close
unfoldable pub close_check : ValidatedTrade → BrokerAdapter → M (Option Reason)
close_check validated adapter =
    if is_sell_to_close validated.action
    then validate_close_position adapter validated.contract_symbol validated.quantity
    else pure none

unfoldable pub skip_or_submit :
    User → ℕ → ValidatedTrade → BrokerAdapter → Option Reason → M TradeExecution
skip_or_submit user alert_id validated adapter (some reason) =
    skip_close user alert_id validated reason
skip_or_submit user alert_id validated adapter none = submit_order user alert_id validated adapter

unfoldable pub execute_valid : User → ℕ → ValidatedTrade → BrokerAdapter → M TradeExecution
execute_valid user alert_id validated adapter = do
  pos_error ← close_check validated adapter
  skip_or_submit user alert_id validated adapter pos_error

abbrev pub is_clean : List ValidationError → Bool
is_clean [] = true
is_clean (e ∷ es) = false

unfoldable pub execute_trade : User → ℕ → ValidatedTrade → BrokerAdapter → M TradeExecution
execute_trade user alert_id validated adapter =
    if is_clean validated.validation_errors
    then execute_valid user alert_id validated adapter
    else reject_invalid user alert_id validated
