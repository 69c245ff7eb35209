-- ===== src/Futures.antt =====
-- app/services/futures_trade.py from the intent on, and app/services/execute_futures_trade.py.
pub mod Laws
use trade_receiver.Prelude.{
  ℕ, String, Bool, true, false, Option, none, some, List, [], ◌∷◌, ◌++◌, ◌==◌, if◌then◌else◌,
}
use trade_receiver.Prelude.Int.{ℤ, pos, ltb_ℤ, min_ℤ, max_ℤ}
use trade_receiver.Prelude.Text.{upper}
use trade_receiver.Trade.{
  Action, buy_to_open, sell_to_close, skip, buy, sell, ValidationError, missing_futures_symbol,
  invalid_quantity, invalid_futures_action, TradeIntent, ValidatedFuturesTrade, OrderResult,
}
use trade_receiver.Tables.{
  User, ExecutionStatus, submitted, failed, validation_failed, future, futures_trade,
  BrokerResponse, errors, raw_response, TradeExecution,
}
use trade_receiver.Session.{M, ◌>>=◌, ◌>>◌, pure, commit}
use trade_receiver.Decision.{is_skip}
use trade_receiver.Validation.{when}
use trade_receiver.Execution.{
  effective_mode, add_execution, mark_processed, is_clean, is_buy_to_open,
}
use trade_receiver.NinjaTrader.{
  ninjatrader_futures_symbol, Transport, NinjaTraderAdapter, execute_futures_order,
}

unfoldable pub validate_futures_intent : TradeIntent → List ValidationError
validate_futures_intent intent =
    when (upper intent.underlying == "") missing_futures_symbol
    ++ (when (ltb_ℤ intent.quantity (pos 1)) invalid_quantity
        ++ when (is_skip intent.action) invalid_futures_action)

-- `uuid` is what `uuid4` would draw for an intent without an identifier
unfoldable pub intent_to_validated_futures : String → TradeIntent → String → ValidatedFuturesTrade
unfolding validate_futures_intent
intent_to_validated_futures uuid intent broker_name = record {
  action = if is_buy_to_open intent.action then buy else sell;
  symbol = ninjatrader_futures_symbol intent.underlying;
  quantity = intent.quantity;
  order_type = intent.order_type;
  stop_loss_ticks = intent.stop_loss_ticks;
  profit_target_ticks = intent.profit_target_ticks;
  confidence = intent.confidence;
  rationale = intent.rationale;
  broker = broker_name;
  external_id = if intent.external_id == "" then uuid else intent.external_id;
  validation_errors = validate_futures_intent intent;
}

-- `_compute_futures_quantity` of app/services/ingest_pipeline.py, which never skips
unfoldable pub compute_futures_quantity : User → ValidatedFuturesTrade → ℤ
compute_futures_quantity user validated =
    max_ℤ (pos 1) (min_ℤ validated.quantity user.max_contracts)

abbrev pub futures_row :
    User
    → ℕ
    → ValidatedFuturesTrade
    → ExecutionStatus
    → BrokerResponse
    → Option String
    → ℕ
    → TradeExecution
futures_row user alert_id validated status response order_id id = record {
  id = id;
  user_id = user.id;
  alert_id = alert_id;
  broker = validated.broker;
  mode = effective_mode user;
  status = status;
  underlying = validated.symbol;
  instrument = future;
  quantity = validated.quantity;
  contract_symbol = validated.symbol;
  fill_price = none;
  pnl = none;
  intent_json = futures_trade validated;
  broker_response = response;
  broker_order_id = order_id;
}

unfoldable pub reject_futures : User → ℕ → ValidatedFuturesTrade → M TradeExecution
reject_futures user alert_id validated = do
  row ← add_execution (
      futures_row user alert_id validated validation_failed (errors validated.validation_errors)
        none)
  commit
  pure row

unfoldable pub record_futures : User → ℕ → ValidatedFuturesTrade → OrderResult → M TradeExecution
record_futures user alert_id validated result = do
  row ← add_execution (
      futures_row user alert_id validated (if result.success then submitted else failed)
        raw_response result.order_id)
  mark_processed alert_id none
  commit
  pure row

-- `dry_run = mode == "paper"`
abbrev pub dry_run_of : User → Bool
dry_run_of user = effective_mode user == "paper"

unfoldable pub submit_futures :
    User → ℕ → ValidatedFuturesTrade → NinjaTraderAdapter → Transport → String → M TradeExecution
submit_futures user alert_id validated adapter transport token = do
  result ← execute_futures_order adapter transport token user.id validated (dry_run_of user)
  record_futures user alert_id validated result

unfoldable pub execute_futures_trade :
    User → ℕ → ValidatedFuturesTrade → NinjaTraderAdapter → Transport → String → M TradeExecution
execute_futures_trade user alert_id validated adapter transport token =
    if is_clean validated.validation_errors
    then submit_futures user alert_id validated adapter transport token
    else reject_futures user alert_id validated
