-- ===== src/NinjaTrader/AsBroker.antt =====
-- `NinjaTraderAdapter` as a `BrokerAdapter`: its methods for options, which trade nothing.
use trade_receiver.Prelude.{true, none, some, []}
use trade_receiver.Trade.{OrderResult}
use trade_receiver.Session.{ok}
use trade_receiver.Broker.{OrderDict, BrokerAdapter}
use trade_receiver.NinjaTrader.{NinjaTraderAdapter, failure}

abbrev pub unsupported : OrderResult
unsupported = failure none "NinjaTrader adapter uses execute_futures_order"

abbrev pub submitted_dict : OrderDict
submitted_dict = record {
  status = some "SUBMITTED";
  leg_prices = [];
  price = none;
  avg_fill_price = none;
  average_price = none;
  other_keys = true;
}

unfoldable pub as_broker : NinjaTraderAdapter → BrokerAdapter
as_broker adapter = record {
  get_option_chain = λ orders underlying expiration. ok [];
  get_account_equity = λ orders. ok none;
  get_positions = λ orders. ok [];
  place_order = λ orders contract quantity opens mode. ok unsupported;
  place_order_with_take_profit = λ orders contract quantity opens mode tp. ok unsupported;
  get_order_status = λ orders order_id. ok (some (record { top = submitted_dict; order = none }));
}
