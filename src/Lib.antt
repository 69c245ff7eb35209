-- ===== src/Lib.antt =====
-- A verification library for the trade receiver: a service that turns inbound alerts into option and
-- futures orders at a user's broker.
--
-- An alert becomes a trade intent; the intent is validated against the broker's option chain, sized
-- for the user, and executed: an order goes to the broker, and rows of the database record it.
-- Futures go to NinjaTrader instead, over a device bridge with a forward URL behind it.
--
-- Files and the code they model, from the repository's root:
--   Trade         app/schemas/trade.py, app/brokers/base.py (contracts and results)
--   Tables        app/models/tables.py (the columns that are used)
--   Session       the SQLAlchemy session: what it sees, what is committed, the unique index of
--                 alerts, rows of other workers, and the orders that left the program
--   Broker        BrokerAdapter of app/brokers/base.py
--   Entitlements  app/services/entitlements.py
--   Sizing        app/services/compute_quantity.py
--   MarketHours   app/services/market_hours.py
--   Validation    app/services/validate_trade.py; Validation/Chain its searches
--   Orders        app/services/position_check.py; Orders/Fill, Orders/Pnl and Orders/Reconcile
--                 app/services/order_lifecycle.py
--   Execution     app/services/execute_trade.py; Execution/TakeProfit its take-profit leg
--   NinjaTrader   app/brokers/ninjatrader.py (futures)
--   Futures       app/services/futures_trade.py (from the intent on),
--                 app/services/execute_futures_trade.py
--   Decision      app/agents/decide_action.py, app/agents/filter_trade.py
--   Pipeline      app/services/ingest_pipeline.py, get_adapter of app/services/option_chain.py, and
--                 the handler of app/api/ingest.py; its record World holds what it asks of the
--                 readers of a body, the parser, the language model, the clock and the network
--   DeviceBridge  the registry of app/services/device_bridge.py: its state and keys, and in
--                 DeviceBridge/Push the messages, the two steps of a push and the clean-up. The
--                 adapter of NinjaTrader sees it as a parameter, whose push says whether it put the
--                 order out
--   Json, Http    decoded JSON, and calls of httpx to a network that is a parameter
--   Tradier       app/brokers/tradier.py, app/brokers/tradier_env.py; Tradier/Account what is read of
--                 an account
--   Schwab        app/brokers/schwab.py; Schwab/Account what is read of an account
--   Webull        app/brokers/webull.py
--   LiveTrading   the mode of app/services/execute_trade.py at these adapters
--   Eterminal     app/services/eterminal_signal.py
--   Normalize     app/services/webhook_normalize.py, the futures payloads of
--                 app/services/futures_trade.py, and resolve_idempotency_key of the pipeline; its
--                 payload_world fills the readers of a World
--   Webhooks      app/api/webhooks.py; Webhooks/Again a body that is received again,
--                 Webhooks/Audited the audit of a request and what it means for a deletion
--   AgentConfig   app/services/agent_config.py, app/agents/defaults.py; AgentConfig/AdminUpdate
--                 admin_update_agent of app/api/admin.py
--   Admin         roles and require_admin of app/api/admin.py
--   Settings      app/api/settings.py
--   RateLimit     app/middleware/rate_limit.py
--   OauthState    app/services/oauth_state.py
--   Prelude       tests, lists, integers over the native numbers, and the methods of texts
--   Samples, Tests  an account, a broker and a network for the runs in Tests
--
-- An action is a function from a session to a result and a session; an exception is the result
-- `err` and keeps the session as it was left. What a broker, the bridge or the network answers is a
-- parameter that depends on the orders sent so far. Amounts are integers in ten-thousandths in place
-- of `Decimal` and `float`; a division is carried out where the source rounds. Loops are recursion
-- on the list that the source walks, so no fuel is needed.
--
-- Not modelled: log-in at the brokers, sessions and tokens, cryptography, the audit and report views,
-- reviews, billing and the other account handlers, the WebSocket handler of devices, start-up,
-- migrations, and the reading of alerts in free text. The pipeline sees the bridge and the network as
-- a parameter.
pub mod Prelude
pub mod Trade
pub mod Tables
pub mod Session
pub mod Broker
pub mod Entitlements
pub mod Sizing
pub mod MarketHours
pub mod Validation
pub mod Orders
pub mod Execution
pub mod NinjaTrader
pub mod Futures
pub mod Decision
pub mod Pipeline
pub mod DeviceBridge
pub mod RateLimit
pub mod OauthState
pub mod AgentConfig
pub mod Settings
pub mod Admin
pub mod Json
pub mod Http
pub mod Tradier
pub mod Schwab
pub mod Webull
pub mod LiveTrading
pub mod Eterminal
pub mod Normalize
pub mod Webhooks
pub mod Samples
pub mod Tests
