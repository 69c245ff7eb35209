-- ===== src/Tests/Options.antt =====
-- Option trades on concrete data.
use trade_receiver.Prelude.{none, some, List, [], ◌∷◌, ◌≡◌, refl, ◌⊎◌}
use trade_receiver.Prelude.Int.{pos}
use trade_receiver.Prelude.Text.{upper}
use trade_receiver.Trade.{buy_to_open, sell_to_close, call, OptionContract, ValidatedTrade}
use trade_receiver.Tables.{TradeExecution, filled, broker_payload}
use trade_receiver.Session.{ok, err, broker_error, commit, clash}
use trade_receiver.Broker.{BrokerAdapter}
use trade_receiver.Execution.{
  execute_trade, execute_valid, close_check, skip_or_submit, submit_order, place, order_answer,
  after_answer, record_fill, record_result, add_execution, mark_processed, persist_leg, leg_if,
  effective_mode, execution_row,
}
use trade_receiver.Execution.TakeProfit.{take_profit_price, take_profit_of}
use trade_receiver.Orders.Fill.{
  resolve_fill, order_status, read_status, payload_of, status_of, extract_fill_price, truthy,
  first_price, first_leg, average, is_empty,
}
use trade_receiver.Execution.Laws.{
  IsPlaced, IsFinished, execute_trade_orders, execute_trade_raises, execute_trade-IsFinished,
}
use trade_receiver.Validation.{
  validate_trade, option_chain, validated_with, fill_contract, contract_errors, choose_contract,
  intent_errors,
}
use trade_receiver.Validation.Laws.{IsAccepted, validate_trade-IsAccepted}
use trade_receiver.Validation.Chain.{
  closest_contract, candidates, allowed, nearest, match_exact_contract, is_exact,
}
use trade_receiver.Validation.Chain.Laws.{IsEligible, IsNearest, closest_contract_sound}
use trade_receiver.Samples.{trader, spy_call, spy_intent, spy_trade, broker, start}

execute_trade_orders_example :
    let s' = (execute_trade trader 1 (spy_trade sell_to_close) broker start).1 in
    (s'.orders ≡ []) ⊎ IsPlaced trader (spy_trade sell_to_close) broker start s'
execute_trade_orders_example =
    execute_trade_orders trader 1 (spy_trade sell_to_close) broker start refl

-- a broker that takes the order, and is down when its status is asked for
abbrev half_down : BrokerAdapter
half_down = record broker { get_order_status = λ orders id. err (broker_error "down") }

is_raised :
    (execute_trade trader 1 (spy_trade buy_to_open) half_down start).0 ≡ err (broker_error "down")
unfolding execute_trade execute_valid close_check skip_or_submit submit_order place order_answer
    after_answer record_fill record_result resolve_fill order_status read_status payload_of
    status_of extract_fill_price truthy first_price first_leg average is_empty add_execution
    mark_processed persist_leg leg_if commit clash effective_mode take_profit_price take_profit_of
    upper
is_raised = refl

execute_trade_raises_example :
    let p = execute_trade trader 1 (spy_trade buy_to_open) half_down start in
    (p.1.db ≡ start.db) × (p.1.saved ≡ start.saved)
execute_trade_raises_example =
    execute_trade_raises trader 1 (spy_trade buy_to_open) half_down start (broker_error "down") refl
      is_raised

-- the row of a filled buy
abbrev spy_row : TradeExecution
spy_row =
    record (execution_row trader 1 (spy_trade buy_to_open) filled (broker_payload none none) 2) {
      fill_price = some (pos 11000);
      broker_order_id = some "o1";
    }

buy_returns :
    execute_trade trader 1 (spy_trade buy_to_open) broker start
    ≡ (ok spy_row, (execute_trade trader 1 (spy_trade buy_to_open) broker start).1)
unfolding execute_trade execute_valid close_check skip_or_submit submit_order place order_answer
    after_answer record_fill record_result resolve_fill order_status read_status payload_of
    status_of extract_fill_price truthy first_price first_leg average is_empty add_execution
    mark_processed persist_leg leg_if commit clash effective_mode take_profit_price take_profit_of
    upper
buy_returns = refl

execute_trade-IsFinished_example :
    IsFinished trader 1 start spy_row
      (execute_trade trader 1 (spy_trade buy_to_open) broker start).1
execute_trade-IsFinished_example =
    execute_trade-IsFinished trader 1 (spy_trade buy_to_open) broker start spy_row
      (execute_trade trader 1 (spy_trade buy_to_open) broker start).1 refl buy_returns

abbrev spy_chain : List OptionContract
spy_chain = record spy_call { strike = pos 5050000; symbol = "SPY C505" } ∷ (spy_call ∷ [])

nearest_is_found : closest_contract spy_chain "spy" call (pos 5010000) 20 ≡ some spy_call
unfolding closest_contract candidates allowed nearest upper
nearest_is_found = refl

closest_contract_sound_example :
    IsEligible spy_chain "spy" call spy_call
    × IsNearest (pos 5010000) (candidates spy_chain "spy" call 20) spy_call
closest_contract_sound_example =
    closest_contract_sound spy_chain "spy" call (pos 5010000) 20 spy_call nearest_is_found

abbrev spy_validated : ValidatedTrade
spy_validated = record (spy_trade buy_to_open) { broker = "tradier" }

spy_validates : (validate_trade 10 spy_intent "tradier" broker start).0 ≡ ok spy_validated
unfolding validate_trade option_chain validated_with fill_contract contract_errors choose_contract
    intent_errors match_exact_contract is_exact allowed upper
spy_validates = refl

validate_trade-IsAccepted_example :
    (contracts : List OptionContract) × (broker.get_option_chain [] "spy" 20 ≡ ok contracts)
    × IsAccepted contracts spy_intent spy_validated
validate_trade-IsAccepted_example =
    validate_trade-IsAccepted 10 spy_intent "tradier" broker start spy_validated spy_validates refl
