-- ===== src/Trade.antt =====
-- app/schemas/trade.py and app/brokers/base.py: trade intents, validated trades, option contracts
-- and order results. A literal type is a data type; a column or field of open text is a `String`.
-- A date is its ordinal. A validation message is a constructor that holds what the text quotes.
use trade_receiver.Prelude.{ℕ, String, Bool, Option, List}
use trade_receiver.Prelude.Int.{ℤ, Decimal}

abbrev pub Date : Type 0
Date = ℕ

pub data Action : Type 0 where
  buy_to_open sell_to_close skip : Action

pub data AssetClass : Type 0 where
  option future : AssetClass

pub data OptionType : Type 0 where
  call put : OptionType

pub data OrderType : Type 0 where
  market limit : OrderType

pub data FuturesAction : Type 0 where
  buy sell : FuturesAction

pub data ValidationError : Type 0 where
  missing_expiration invalid_strike missing_underlying contract_not_found : ValidationError
  open_interest_below : ℤ → ℤ → ValidationError
  spread_exceeds : Decimal → Decimal → Decimal → ValidationError
  missing_futures_symbol invalid_quantity invalid_futures_action : ValidationError

pub record TradeIntent : Type 0 where
  pub action : Action
  pub asset_class : AssetClass
  pub underlying : String
  pub option_type : OptionType
  pub strike : Decimal
  pub expiration : Option Date
  pub quantity : ℤ
  pub order_type : OrderType
  pub limit_price : Option Decimal
  pub confidence : Decimal
  pub rationale : String
  pub take_profit_pct : Option Decimal
  pub source : String
  pub notional_usd : Option Decimal
  pub stop_loss_ticks : Option ℤ
  pub profit_target_ticks : Option ℤ
  pub external_id : String

pub record ValidatedTrade : Type 0 where
  pub action : Action
  pub underlying : String
  pub option_type : OptionType
  pub strike : Decimal
  pub expiration : Date
  pub quantity : ℤ
  pub order_type : OrderType
  pub limit_price : Option Decimal
  pub confidence : Decimal
  pub rationale : String
  pub broker : String
  pub contract_symbol : String
  pub bid : Option Decimal
  pub ask : Option Decimal
  pub open_interest : Option ℤ
  pub validation_errors : List ValidationError
  pub take_profit_pct : Option Decimal
  pub source : String
  pub notional_usd : Option Decimal

pub record ValidatedFuturesTrade : Type 0 where
  pub action : FuturesAction
  pub symbol : String
  pub quantity : ℤ
  pub order_type : OrderType
  pub stop_loss_ticks : Option ℤ
  pub profit_target_ticks : Option ℤ
  pub confidence : Decimal
  pub rationale : String
  pub broker : String
  pub external_id : String
  pub validation_errors : List ValidationError

pub record OptionContract : Type 0 where
  pub symbol : String
  pub underlying : String
  pub option_type : OptionType
  pub strike : Decimal
  pub expiration : Date
  pub bid : Option Decimal
  pub ask : Option Decimal
  pub open_interest : Option ℤ

-- The keys of `raw_response` that the program reads again are fields.
pub record OrderResult : Type 0 where
  pub success : Bool
  pub order_id : Option String
  pub take_profit_order_id : Option String
  pub take_profit_ok : Option Bool
  pub error : Option String

pub record NinjaTraderOrderPayload : Type 0 where
  pub id : String
  pub symbol : String
  pub action : FuturesAction
  pub order_type : OrderType
  pub quantity : ℤ
  pub stop_loss_ticks : Option ℤ
  pub profit_target_ticks : Option ℤ
  pub dry_run : Option Bool
