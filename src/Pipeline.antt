-- ===== src/Pipeline.antt =====
-- app/services/ingest_pipeline.py, and the handler of app/api/ingest.py around it.
pub mod Known
pub mod Steps
pub mod Laws
pub mod Orders
use trade_receiver.Prelude.{
  ℕ, String, Bool, true, false, not, Option, none, some, List, [], ◌∷◌, ◌++◌, ◌==◌, ◌&&◌, suc, find,
  if◌then◌else◌,
}
use trade_receiver.Prelude.Int.{ℤ, pos, Decimal}
use trade_receiver.Prelude.Text.{or_text}
use trade_receiver.Trade.{
  Date, AssetClass, option, future, TradeIntent, ValidatedTrade, ValidatedFuturesTrade,
  ValidationError,
}
use trade_receiver.Tables.{
  Reason, text, User, BrokerConnection, InboundAlert, ExecutionStatus, TradeExecution, Db,
}
use trade_receiver.Session.{
  M, Session, Order, Error, http, integrity_error, runtime_error, Result, ok, err, ◌>>=◌, ◌>>◌,
  pure, raise, lift, get_db, modify_db, same_key, commit, rollback,
}
use trade_receiver.Broker.{BrokerAdapter}
use trade_receiver.Entitlements.{can_process_trades, require_active_subscription}
use trade_receiver.MarketHours.{EtTime, is_rth}
use trade_receiver.Decision.{is_skip, decide_action, Llm, apply_trade_filter}
use trade_receiver.Validation.{validate_trade}
use trade_receiver.Sizing.{compute_quantity}
use trade_receiver.Execution.{execute_trade, mark_processed}
use trade_receiver.NinjaTrader.{NinjaTraderAdapter, Transport}
use trade_receiver.NinjaTrader.AsBroker.{as_broker}
use trade_receiver.Futures.{
  intent_to_validated_futures, compute_futures_quantity, execute_futures_trade,
}

pub data Adapter : Type 0 where
  options : BrokerAdapter → Adapter
  ninjatrader : NinjaTraderAdapter → Adapter

abbrev pub broker_of : Adapter → BrokerAdapter
broker_of (options adapter) = adapter
broker_of (ninjatrader adapter) = as_broker adapter

abbrev pub map_result : {A : Type 0} → (A → Adapter) → Result A → Result Adapter
map_result f (ok a) = ok (f a)
map_result f (err e) = err e

-- What the pipeline asks of the rest of the program and of the world, for bodies of type `Body`: the
-- readers of a body, the parser's answer, the language model, the adapters of a connection, the time
-- (UTC seconds, New York, and today's date), the network, and drawn texts.
pub record World (Body : Type 0) : Type 0 where
  pub normalized_text : Body → Result String
  pub resolve_idempotency_key : User → Body → Option String → String
  pub is_eterminal_envelope : Body → Bool
  pub map_eterminal_signal : Body → Result (Option TradeIntent)
  pub parse_alert : String → Body → Result TradeIntent
  pub llm : Llm
  pub threshold : Decimal
  pub from_credentials : BrokerConnection → Result NinjaTraderAdapter
  pub open_broker : BrokerConnection → Result BrokerAdapter
  pub now : ℕ
  pub today : Date
  pub clock : EtTime
  pub transport : Transport
  pub uuid : String
  pub token : String

abbrev pub rth_skip_reason : String
rth_skip_reason = "outside regular trading hours (9:30 AM – 4:00 PM ET, Mon–Fri)"

-- The response: of a duplicate, of a skipped alert, or of an execution.
pub data Reply : Type 0 where
  duplicate : ℕ → Reply
  skipped : Reason → Reply
  executed : ExecutionStatus → ℕ → List ValidationError → Reply

-- `query(InboundAlert).filter_by(user_id, idempotency_key).first()`
abbrev pub find_alert : String → String → Db → Option InboundAlert
find_alert user_id key db = find (same_key user_id key) db.alerts

abbrev pub new_alert : User → Option String → String → String → Bool → ℕ → InboundAlert
new_alert user webhook_id key normalized_text active id = record {
  id = id;
  user_id = user.id;
  inbound_webhook_id = webhook_id;
  idempotency_key = key;
  normalized_text = normalized_text;
  subscription_active = active;
  processed = false;
  skip_reason = none;
}

abbrev pub append_alert : InboundAlert → Db → Db
append_alert alert d = record d { alerts = d.alerts ++ alert ∷ []; next_id = suc d.next_id }

-- the row of a new alert, added and not yet committed
unfoldable pub add_alert : User → Option String → String → String → Bool → M ℕ
add_alert user webhook_id key normalized_text active = do
  db ← get_db
  modify_db (append_alert (new_alert user webhook_id key normalized_text active db.next_id))
  pure db.next_id

-- `alert.skip_reason = reason; alert.processed = True; db.commit()`, and the response
unfoldable pub skip_alert : ℕ → Reason → M Reply
skip_alert alert_id reason = do mark_processed alert_id (some reason); commit; pure (skipped reason)

unfoldable pub refuse_inactive : ℕ → User → ℕ → M Reply
refuse_inactive now user alert_id = do
  mark_processed alert_id (some (require_active_subscription now user).1)
  commit
  raise (http 402 (require_active_subscription now user).1)

abbrev pub or_connection :
    Option BrokerConnection → Option BrokerConnection → Option BrokerConnection
or_connection none d = d
or_connection (some c) d = some c

abbrev pub is_connected : String → BrokerConnection → Bool
is_connected user_id c = c.user_id == user_id && c.status == "connected"

-- the user's default broker if it is connected, otherwise the first connection
unfoldable pub default_connection :
    Option String → String → List BrokerConnection → Option BrokerConnection
default_connection none user_id connections = none
default_connection (some broker) user_id connections =
    if broker == ""
    then none
    else find (λ c. is_connected user_id c && c.broker == broker) connections

unfoldable pub resolve_broker_connection : User → Db → Option BrokerConnection
unfolding default_connection
resolve_broker_connection user db =
    or_connection (default_connection user.default_broker user.id db.connections)
      (find (is_connected user.id) db.connections)

module _ {Body : Type 0} (world : World Body) (user : User) where
  -- the intent that a body stands for; none if it is an eterminal event without a signal
  unfoldable pub read_intent : Body → String → M (Option TradeIntent)
  read_intent body normalized_text =
      if world.is_eterminal_envelope body then lift (world.map_eterminal_signal body) else (do
        intent ← lift (world.parse_alert normalized_text body)
        pure (some (apply_trade_filter world.llm (decide_action world.threshold intent user) user)))

  -- app/services/option_chain.py; a refresh of the stored credentials is not modelled
  unfoldable pub get_adapter : BrokerConnection → Result Adapter
  get_adapter connection =
      if connection.broker == "ninjatrader"
      then map_result ninjatrader (world.from_credentials connection)
      else map_result options (world.open_broker connection)

  unfoldable pub trade_future : ℕ → TradeIntent → BrokerConnection → Adapter → M Reply
  trade_future alert_id intent connection (options adapter) =
      skip_alert alert_id (text "invalid NinjaTrader adapter")
  trade_future alert_id intent connection (ninjatrader adapter) = do
    let validated = intent_to_validated_futures world.uuid intent connection.broker
    let sized = record validated { quantity = compute_futures_quantity user validated }
    row ← execute_futures_trade user alert_id sized adapter world.transport world.token
    pure (executed row.status row.id sized.validation_errors)

  unfoldable pub execute_sized : ℕ → ValidatedTrade → BrokerAdapter → ℤ × Option Reason → M Reply
  execute_sized alert_id validated adapter (quantity, some reason) = skip_alert alert_id reason
  execute_sized alert_id validated adapter (quantity, none) = do
    row ← execute_trade user alert_id (record validated { quantity = quantity }) adapter
    pure (executed row.status row.id validated.validation_errors)

  unfoldable pub trade_option : ℕ → TradeIntent → BrokerConnection → Adapter → M Reply
  trade_option alert_id intent connection adapter = do
    validated ← validate_trade world.today intent connection.broker (broker_of adapter)
    sizing ← compute_quantity user validated (broker_of adapter)
    execute_sized alert_id validated (broker_of adapter) sizing

  unfoldable pub trade_with : ℕ → TradeIntent → BrokerConnection → AssetClass → M Reply
  trade_with alert_id intent connection future =
      if connection.broker == "ninjatrader"
      then (do
        adapter ← lift (get_adapter connection)
        trade_future alert_id intent connection adapter)
      else skip_alert alert_id (text "futures trading requires NinjaTrader connection")
  trade_with alert_id intent connection option =
      if connection.broker == "ninjatrader"
      then skip_alert alert_id (text "NinjaTrader only supports futures orders")
      else (do
        adapter ← lift (get_adapter connection)
        trade_option alert_id intent connection adapter)

  unfoldable pub trade_connected : ℕ → TradeIntent → Option BrokerConnection → M Reply
  trade_connected alert_id intent none = skip_alert alert_id (text "no broker connected")
  trade_connected alert_id intent (some connection) =
      trade_with alert_id intent connection intent.asset_class

  unfoldable pub trade_open : ℕ → TradeIntent → M Reply
  trade_open alert_id intent = do
    db ← get_db
    trade_connected alert_id intent (resolve_broker_connection user db)

  -- the rationale is the reason of a skipped intent, if there is one
  unfoldable pub trade_read : ℕ → Option TradeIntent → M Reply
  trade_read alert_id none = skip_alert alert_id (text "eterminal event not a tradable signal")
  trade_read alert_id (some intent) =
      if is_skip intent.action
      then skip_alert alert_id (text (or_text intent.rationale "skipped"))
      else if is_rth world.clock
      then trade_open alert_id intent
      else skip_alert alert_id (text rth_skip_reason)

  unfoldable pub process_alert : Body → String → ℕ → M Reply
  process_alert body normalized_text alert_id =
      if can_process_trades world.now user
      then (do intent ← read_intent body normalized_text; trade_read alert_id intent)
      else refuse_inactive world.now user alert_id

  unfoldable pub process_new : Body → Option String → String → M Reply
  process_new body webhook_id normalized_text = do
    alert_id ←
        add_alert user webhook_id (world.resolve_idempotency_key user body webhook_id)
          normalized_text (can_process_trades world.now user)
    commit
    process_alert body normalized_text alert_id

  unfoldable pub process_unless : Body → Option String → String → Option InboundAlert → M Reply
  process_unless body webhook_id normalized_text (some existing) = pure (duplicate existing.id)
  process_unless body webhook_id normalized_text none = process_new body webhook_id normalized_text

  unfoldable pub process_inbound_alert : Body → Option String → M Reply
  process_inbound_alert body webhook_id = do
    normalized_text ← lift (world.normalized_text body)
    db ← get_db
    process_unless body webhook_id normalized_text
        (find_alert user.id (world.resolve_idempotency_key user body webhook_id) db)

  abbrev pub duplicate_of : Option InboundAlert → M Reply
  duplicate_of (some existing) = pure (duplicate existing.id)
  duplicate_of none = raise (runtime_error "ingest integrity error without matching alert row")

  unfoldable pub duplicate_response : Body → Option String → M Reply
  duplicate_response body webhook_id = do
    db ← get_db
    duplicate_of (find_alert user.id (world.resolve_idempotency_key user body webhook_id) db)

  -- `except IntegrityError`; what is not committed is lost with any other exception
  unfoldable pub recover : Body → Option String → Result Reply × Session → Result Reply × Session
  recover body webhook_id (err integrity_error, s) =
      (rollback >> duplicate_response body webhook_id) s
  recover body webhook_id (r, s) = (r, record s { db = s.saved })

  unfoldable pub ingest_alert : Body → M Reply
  ingest_alert body s = recover body none (process_inbound_alert body none s)
