-- ===== src/Tables.antt =====
-- app/models/tables.py: the columns that the modelled code reads or writes, and the database as the
-- lists of its rows. Identifiers of alerts and executions are drawn from a counter, in place of
-- `uuid4`. A `skip_reason` or an error text is a constructor that holds what the text quotes.
use trade_receiver.Prelude.{ℕ, String, Bool, Option, List}
use trade_receiver.Prelude.Int.{ℤ, Decimal}
use trade_receiver.Trade.{Date, OptionType, ValidatedTrade, ValidatedFuturesTrade, ValidationError}

pub data Reason : Type 0 where
  text : String → Reason
  no_open_position : String → Reason
  close_exceeds_position : ℤ → ℤ → Reason

pub record Subscription : Type 0 where
  pub status : String
  pub plan_name : String
  pub renews_at : Option ℕ
  pub ends_at : Option ℕ

pub record User : Type 0 where
  pub id : String
  pub api_key_hash : Option String
  pub default_mode : String
  pub max_contracts : ℤ
  pub allowed_tickers : Option String
  pub trade_filter_prompt : Option String
  pub live_trading_enabled : Bool
  pub sizing_mode : String
  pub fixed_contracts : ℤ
  pub risk_percent : Decimal
  pub default_broker : Option String
  pub subscription : Option Subscription

pub record BrokerConnection : Type 0 where
  pub user_id : String
  pub broker : String
  pub status : String
  pub account_id : Option String
  pub environment : Option String
  pub encrypted_credentials : Option String

pub record InboundAlert : Type 0 where
  pub id : ℕ
  pub user_id : String
  pub inbound_webhook_id : Option String
  pub idempotency_key : String
  pub normalized_text : String
  pub subscription_active : Bool
  pub processed : Bool
  pub skip_reason : Option Reason

pub data ExecutionStatus : Type 0 where
  filled submitted failed skipped validation_failed : ExecutionStatus

-- `option_type` and `expiration` are "future" and "" in a futures row.
pub data Instrument : Type 0 where
  option : OptionType → Decimal → Date → Instrument
  future : Instrument

-- `intent_json` is the dump of one of the two trades.
pub data IntentJson : Type 0 where
  option_trade : ValidatedTrade → IntentJson
  futures_trade : ValidatedFuturesTrade → IntentJson

-- The contents of `broker_response_json`, which no modelled code reads back.
pub data BrokerResponse : Type 0 where
  errors : List ValidationError → BrokerResponse
  error : Reason → BrokerResponse
  broker_payload : Option Decimal → Option Decimal → BrokerResponse
  take_profit_leg : Option String → ℕ → Decimal → Bool → BrokerResponse
  raw_response : BrokerResponse

pub record TradeExecution : Type 0 where
  pub id : ℕ
  pub user_id : String
  pub alert_id : ℕ
  pub broker : String
  pub mode : String
  pub status : ExecutionStatus
  pub underlying : String
  pub instrument : Instrument
  pub quantity : ℤ
  pub contract_symbol : String
  pub fill_price : Option Decimal
  pub pnl : Option Decimal
  pub intent_json : IntentJson
  pub broker_response : BrokerResponse
  pub broker_order_id : Option String

pub record Db : Type 0 where
  pub alerts : List InboundAlert
  pub executions : List TradeExecution
  pub connections : List BrokerConnection
  pub next_id : ℕ
