-- ===== src/Broker.antt =====
-- The interface `BrokerAdapter` of app/brokers/base.py, as a client sees it: each answer depends on
-- the orders sent so far and may be an exception. What a broker answers is a parameter here; Tradier
-- and Schwab hold what their adapters do with an answer.
use trade_receiver.Prelude.{String, Bool, Option, List}
use trade_receiver.Prelude.Int.{ℤ, Decimal}
use trade_receiver.Trade.{Date, OptionContract, OrderResult}
use trade_receiver.Session.{Order, Result}

-- One entry of `get_positions()`.
pub record Position : Type 0 where
  pub symbol : String
  pub quantity : Decimal

-- The keys of an order's dictionary that the program reads; `other_keys` says that it has more.
pub record OrderDict : Type 0 where
  pub status : Option String
  pub leg_prices : List (List (Option Decimal))
  pub price : Option Decimal
  pub avg_fill_price : Option Decimal
  pub average_price : Option Decimal
  pub other_keys : Bool

-- `get_order_status()`: the dictionary, and the one under its key "order".
pub record OrderStatus : Type 0 where
  pub top : OrderDict
  pub order : Option OrderDict

pub record BrokerAdapter : Type 0 where
  pub get_option_chain : List Order → String → Date → Result (List OptionContract)
  pub get_account_equity : List Order → Result (Option Decimal)
  pub get_positions : List Order → Result (List Position)
  pub place_order : List Order → OptionContract → ℤ → Bool → String → Result OrderResult
  pub place_order_with_take_profit :
      List Order → OptionContract → ℤ → Bool → String → Decimal → Result OrderResult
  pub get_order_status : List Order → String → Result (Option OrderStatus)
