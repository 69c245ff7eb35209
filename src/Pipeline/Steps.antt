-- ===== src/Pipeline/Steps.antt =====
-- Each step of the pipeline keeps the alerts that are known.
use trade_receiver.Prelude.{ℕ, String, Option, none, some, ◌==◌}
use trade_receiver.Prelude.Int.{ℤ}
use trade_receiver.Trade.{Date, AssetClass, option, future, TradeIntent, ValidatedTrade}
use trade_receiver.Tables.{Reason, User, BrokerConnection}
use trade_receiver.Session.{ok, err, pure, lift, get_db, http}
use trade_receiver.Session.Rules.{Reads, Reads-pure, Reads-if, Reads-lift, Reads-bind, Reads-ask}
use trade_receiver.Session.Keeps.{Keeps, Keeps-pure, Keeps-if, Keeps-bind}
use trade_receiver.Broker.{BrokerAdapter}
use trade_receiver.Entitlements.{can_process_trades, require_active_subscription}
use trade_receiver.MarketHours.{is_rth}
use trade_receiver.Decision.{is_skip, decide_action, apply_trade_filter}
use trade_receiver.Validation.{
  validate_trade, option_chain, expiration_or, validated_with, choose_contract,
}
use trade_receiver.Sizing.Laws.{compute_quantity-Reads}
use trade_receiver.Pipeline.{
  Adapter, options, ninjatrader, broker_of, World, skip_alert, refuse_inactive,
  resolve_broker_connection, read_intent, get_adapter, trade_future, execute_sized, trade_option,
  trade_with, trade_connected, trade_open, trade_read, process_alert,
}
use trade_receiver.Pipeline.Known.{
  IsKnown, Reads-Keeps, mark_commit-Keeps, execute_trade-Keeps, execute_futures_trade-Keeps,
}

abbrev pub Anything : {A : Type 0} → A → Type 0
Anything a = Unit {0}

validate_trade-Reads :
    (today : Date) (intent : TradeIntent) (name : String) (adapter : BrokerAdapter)
    → Reads Anything (validate_trade today intent name adapter)
unfolding validate_trade option_chain
validate_trade-Reads today intent name adapter =
    let exp = expiration_or today intent.expiration in
    Reads-bind Anything Anything (option_chain adapter intent.underlying exp)
      (λ contracts. pure (validated_with intent name exp (choose_contract contracts intent exp)))
      (Reads-ask Anything (λ s. adapter.get_option_chain s.orders intent.underlying exp) (λ _. tt))
      (λ contracts _. Reads-pure Anything _ tt)

module _ {Body : Type 0} (world : World Body) (user : User) where
  pub read_intent-Reads :
      (body : Body) (t : String) → Reads Anything (read_intent world user body t)
  unfolding read_intent
  read_intent-Reads body t =
      Reads-if Anything (world.is_eterminal_envelope body) _ _
        (Reads-lift Anything (world.map_eterminal_signal body) (λ _. tt))
        (Reads-bind Anything Anything (lift (world.parse_alert t body))
          (λ intent.
            pure (
              some (apply_trade_filter world.llm (decide_action world.threshold intent user) user)))
          (Reads-lift Anything (world.parse_alert t body) (λ _. tt))
          (λ intent _. Reads-pure Anything _ tt))

module _ (user_id key : String) where
  skip_alert-Keeps :
      (alert_id : ℕ) (reason : Reason) → Keeps (IsKnown user_id key) (skip_alert alert_id reason)
  unfolding skip_alert
  skip_alert-Keeps alert_id reason =
      mark_commit-Keeps user_id key alert_id (some reason) _
        (Keeps-pure (IsKnown user_id key) (ok _))

  refuse_inactive-Keeps :
      (now : ℕ) (user : User) (alert_id : ℕ)
      → Keeps (IsKnown user_id key) (refuse_inactive now user alert_id)
  unfolding refuse_inactive
  refuse_inactive-Keeps now user alert_id =
      mark_commit-Keeps user_id key alert_id _ _
        (Keeps-pure (IsKnown user_id key) (err (http 402 (require_active_subscription now user).1)))

  module _ {Body : Type 0} (world : World Body) (user : User) where
    trade_future-Keeps :
        (alert_id : ℕ) (intent : TradeIntent) (connection : BrokerConnection) (adapter : Adapter)
        → Keeps (IsKnown user_id key) (trade_future world user alert_id intent connection adapter)
    unfolding trade_future
    trade_future-Keeps alert_id intent connection (options adapter) = skip_alert-Keeps alert_id _
    trade_future-Keeps alert_id intent connection (ninjatrader adapter) =
        Keeps-bind (IsKnown user_id key) _ _
          (execute_futures_trade-Keeps user_id key user alert_id _ adapter world.transport
            world.token)
          (λ row. Keeps-pure (IsKnown user_id key) (ok _))

    execute_sized-Keeps :
        (alert_id : ℕ) (validated : ValidatedTrade) (adapter : BrokerAdapter)
        (sizing : ℤ × Option Reason)
        → Keeps (IsKnown user_id key) (execute_sized world user alert_id validated adapter sizing)
    unfolding execute_sized
    execute_sized-Keeps alert_id validated adapter (quantity, some reason) =
        skip_alert-Keeps alert_id reason
    execute_sized-Keeps alert_id validated adapter (quantity, none) =
        Keeps-bind (IsKnown user_id key) _ _
          (execute_trade-Keeps user_id key user alert_id _ adapter)
          (λ row. Keeps-pure (IsKnown user_id key) (ok _))

    trade_option-Keeps :
        (alert_id : ℕ) (intent : TradeIntent) (connection : BrokerConnection) (adapter : Adapter)
        → Keeps (IsKnown user_id key) (trade_option world user alert_id intent connection adapter)
    unfolding trade_option
    trade_option-Keeps alert_id intent connection adapter =
        Keeps-bind (IsKnown user_id key) _ _
          (Reads-Keeps user_id key Anything _
            (validate_trade-Reads world.today intent connection.broker (broker_of adapter)))
          (λ validated.
            Keeps-bind (IsKnown user_id key) _ _
              (Reads-Keeps user_id key _ _
                (compute_quantity-Reads user validated (broker_of adapter)))
              (λ sizing. execute_sized-Keeps alert_id validated (broker_of adapter) sizing))

    trade_with-Keeps :
        (alert_id : ℕ) (intent : TradeIntent) (connection : BrokerConnection) (c : AssetClass)
        → Keeps (IsKnown user_id key) (trade_with world user alert_id intent connection c)
    unfolding trade_with
    trade_with-Keeps alert_id intent connection future =
        Keeps-if (IsKnown user_id key) (connection.broker == "ninjatrader") _ _
          (Keeps-bind (IsKnown user_id key) (lift (get_adapter world user connection)) _
            (Keeps-pure (IsKnown user_id key) _)
            (λ adapter. trade_future-Keeps alert_id intent connection adapter))
          (skip_alert-Keeps alert_id _)
    trade_with-Keeps alert_id intent connection option =
        Keeps-if (IsKnown user_id key) (connection.broker == "ninjatrader") _ _
          (skip_alert-Keeps alert_id _)
          (Keeps-bind (IsKnown user_id key) (lift (get_adapter world user connection)) _
            (Keeps-pure (IsKnown user_id key) _)
            (λ adapter. trade_option-Keeps alert_id intent connection adapter))

    trade_connected-Keeps :
        (alert_id : ℕ) (intent : TradeIntent) (c : Option BrokerConnection)
        → Keeps (IsKnown user_id key) (trade_connected world user alert_id intent c)
    unfolding trade_connected
    trade_connected-Keeps alert_id intent none = skip_alert-Keeps alert_id _
    trade_connected-Keeps alert_id intent (some c) = trade_with-Keeps alert_id intent c _

    trade_open-Keeps :
        (alert_id : ℕ) (intent : TradeIntent)
        → Keeps (IsKnown user_id key) (trade_open world user alert_id intent)
    unfolding trade_open
    trade_open-Keeps alert_id intent =
        Keeps-bind (IsKnown user_id key) get_db _ (record { keeps = λ s p. p })
          (λ db. trade_connected-Keeps alert_id intent (resolve_broker_connection user db))

    trade_read-Keeps :
        (alert_id : ℕ) (o : Option TradeIntent)
        → Keeps (IsKnown user_id key) (trade_read world user alert_id o)
    unfolding trade_read
    trade_read-Keeps alert_id none = skip_alert-Keeps alert_id _
    trade_read-Keeps alert_id (some intent) =
        Keeps-if (IsKnown user_id key) (is_skip intent.action) _ _ (skip_alert-Keeps alert_id _) (
          Keeps-if (IsKnown user_id key) (is_rth world.clock) _ _ (trade_open-Keeps alert_id intent)
            (skip_alert-Keeps alert_id _))

    pub process_alert-Keeps :
        (body : Body) (t : String) (alert_id : ℕ)
        → Keeps (IsKnown user_id key) (process_alert world user body t alert_id)
    unfolding process_alert
    process_alert-Keeps body t alert_id =
        Keeps-if (IsKnown user_id key) (can_process_trades world.now user) _ _
          (Keeps-bind (IsKnown user_id key) _ _
            (Reads-Keeps user_id key Anything _ (read_intent-Reads world user body t))
            (λ o. trade_read-Keeps alert_id o))
          (refuse_inactive-Keeps world.now user alert_id)
