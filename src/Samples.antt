-- ===== src/Samples.antt =====
-- A small account, a chain and a broker for the tests.
use trade_receiver.Prelude.{true, false, none, some, [], ◌∷◌}
use trade_receiver.Prelude.Int.{pos}
use trade_receiver.Trade.{
  Action, buy_to_open, option, call, market, buy, TradeIntent, ValidatedTrade,
  ValidatedFuturesTrade, OptionContract, OrderResult,
}
use trade_receiver.Tables.{Subscription, User, InboundAlert}
use trade_receiver.Session.{Session, ok}
use trade_receiver.Broker.{OrderDict, BrokerAdapter}
use trade_receiver.NinjaTrader.{NinjaTraderAdapter, Transport, responded, object}

abbrev pub active_plan : Subscription
active_plan = record { status = "active"; plan_name = "pro"; renews_at = none; ends_at = none }

abbrev pub trader : User
trader = record {
  id = "u1";
  api_key_hash = some "k";
  default_mode = "live";
  max_contracts = pos 5;
  allowed_tickers = none;
  trade_filter_prompt = none;
  live_trading_enabled = false;
  sizing_mode = "risk_percent";
  fixed_contracts = pos 1;
  risk_percent = pos 20000;
  default_broker = none;
  subscription = some active_plan;
}

abbrev pub spy_call : OptionContract
spy_call = record {
  symbol = "SPY C500";
  underlying = "SPY";
  option_type = call;
  strike = pos 5000000;
  expiration = 20;
  bid = some (pos 10000);
  ask = some (pos 12000);
  open_interest = some (pos 50);
}

abbrev pub spy_intent : TradeIntent
spy_intent = record {
  action = buy_to_open;
  asset_class = option;
  underlying = "spy";
  option_type = call;
  strike = pos 5000000;
  expiration = some 20;
  quantity = pos 2;
  order_type = market;
  limit_price = none;
  confidence = pos 9000;
  rationale = "breakout";
  take_profit_pct = none;
  source = "tradingview";
  notional_usd = none;
  stop_loss_ticks = none;
  profit_target_ticks = none;
  external_id = "x1";
}

abbrev pub spy_trade : Action → ValidatedTrade
spy_trade action = record {
  action = action;
  underlying = "SPY";
  option_type = call;
  strike = pos 5000000;
  expiration = 20;
  quantity = pos 2;
  order_type = market;
  limit_price = none;
  confidence = pos 9000;
  rationale = "breakout";
  broker = "tradier";
  contract_symbol = "SPY C500";
  bid = some (pos 10000);
  ask = some (pos 12000);
  open_interest = some (pos 50);
  validation_errors = [];
  take_profit_pct = none;
  source = "tradingview";
  notional_usd = none;
}

abbrev pub es_trade : ValidatedFuturesTrade
es_trade = record {
  action = buy;
  symbol = "ES1!";
  quantity = pos 2;
  order_type = market;
  stop_loss_ticks = some (pos 8);
  profit_target_ticks = none;
  confidence = pos 9000;
  rationale = "trend";
  broker = "ninjatrader";
  external_id = "x2";
  validation_errors = [];
}

abbrev pub filled_order : OrderDict
filled_order = record {
  status = some "FILLED";
  leg_prices = [];
  price = some (pos 11000);
  avg_fill_price = none;
  average_price = none;
  other_keys = false;
}

abbrev pub accepted : OrderResult
accepted = record {
  success = true;
  order_id = some "o1";
  take_profit_order_id = none;
  take_profit_ok = none;
  error = none;
}

abbrev pub broker : BrokerAdapter
broker = record {
  get_option_chain = λ orders underlying d. ok (spy_call ∷ []);
  get_account_equity = λ orders. ok (some (pos 100000000));
  get_positions = λ orders. ok (record { symbol = "SPY C500"; quantity = pos 30000 } ∷ []);
  place_order = λ orders c q opens mode. ok accepted;
  place_order_with_take_profit = λ orders c q opens mode tp. ok accepted;
  get_order_status = λ orders id. ok (some (record { top = filled_order; order = none }));
}

-- a bridge that refuses every order, with a forward URL behind it
abbrev pub ninjatrader : NinjaTraderAdapter
ninjatrader = record { forward_url = "https://nt"; webhook_secret = "" }

abbrev pub network : Transport
network = record {
  has_online_devices = λ orders user_id. true;
  push_order = λ orders user_id body. record {
    put_out = true;
    answer = ok (some (record { success = false; order_id = none; error = some "timeout" }));
  };
  post = λ orders url body.
      responded (record { status_code = 201; body = object (some "n1") none; message = "" });
}

abbrev pub pending : InboundAlert
pending = record {
  id = 1;
  user_id = "u1";
  inbound_webhook_id = none;
  idempotency_key = "k1";
  normalized_text = "BTO SPY";
  subscription_active = true;
  processed = false;
  skip_reason = none;
}

abbrev pub start : Session
start = record {
  db = record { alerts = pending ∷ []; executions = []; connections = []; next_id = 2 };
  saved = record { alerts = pending ∷ []; executions = []; connections = []; next_id = 2 };
  rivals = [];
  orders = [];
}
