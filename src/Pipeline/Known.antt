-- ===== src/Pipeline/Known.antt =====
-- An alert's key stays known: no step of an execution loses an alert, in the session or committed.
use mathlib.Core.Path.{subst}
use trade_receiver.Prelude.{
  ℕ, String, Bool, true, Option, none, some, List, [], ◌∷◌, ◌++◌, ◌≡◌, refl, sym, arith, any, eqb,
  update, Bool-cases, inl, inr,
}
use trade_receiver.Prelude.Int.{Decimal}
use trade_receiver.Trade.{ValidatedTrade, ValidatedFuturesTrade, OrderResult}
use trade_receiver.Tables.{User, Reason, InboundAlert, ExecutionStatus, TradeExecution, Db}
use trade_receiver.Session.{
  Session, Order, ok, M, ◌>>◌, pure, get_db, modify_db, send, same_key, clash, commit,
}
use trade_receiver.Session.Rules.{Reads}
use trade_receiver.Session.Keeps.{Keeps, Keeps-pure, Keeps-if, Keeps-bind}
use trade_receiver.Broker.{BrokerAdapter}
use trade_receiver.Execution.{
  mark, mark_processed, add_execution, persist_leg, record_result, record_fill, after_answer, place,
  submit_order, skip_or_submit, skip_close, execute_valid, reject_invalid, execute_trade,
  tp_price_of, result_row, leg_price, close_pnl, effective_mode, is_clean,
}
use trade_receiver.Execution.Effects.{leg_if-KeepsRows}
use trade_receiver.Execution.Outcomes.{
  Any, order_answer-Reads, resolve_fill-Reads, close_check-Reads,
}
use trade_receiver.NinjaTrader.{
  NinjaTraderAdapter, Transport, build_order_payload, execute_futures_order,
}
use trade_receiver.NinjaTrader.Laws.{IsDelivered, execute_futures_order-IsDelivered}
use trade_receiver.Futures.{record_futures, reject_futures, submit_futures, execute_futures_trade}

module _ (user_id key : String) where
  abbrev pub HasKey : List InboundAlert → Type 0
  HasKey alerts = any (same_key user_id key) alerts ≡ true

  abbrev pub IsKnown : Session → Type 0
  IsKnown s = HasKey s.db.alerts × HasKey s.saved.alerts

  pub HasKey-append : (xs ys : List InboundAlert) → HasKey ys → HasKey (xs ++ ys)
  HasKey-append [] ys h = h
  HasKey-append (x ∷ xs) ys h = ground (arith, HasKey-append xs ys h)

  mark-same_key :
      (reason : Option Reason) (a : InboundAlert)
      → same_key user_id key (mark reason a) ≡ same_key user_id key a
  mark-same_key none a = refl
  mark-same_key (some r) a = refl

  HasKey-update :
      (alert_id : ℕ) (reason : Option Reason) (xs : List InboundAlert)
      → HasKey xs
      → HasKey (update (λ a. eqb a.id alert_id) (mark reason) xs)
  HasKey-update alert_id reason [] h = h
  HasKey-update alert_id reason (x ∷ xs) h =
      ground (arith, HasKey-update alert_id reason xs, mark-same_key reason x)

  modify_db-Keeps :
      (f : Db → Db)
      → ((d : Db) → HasKey d.alerts → HasKey (f d).alerts)
      → Keeps IsKnown (modify_db f)
  modify_db-Keeps f h = record { keeps = λ s p. (h s.db p.0, p.1) }

  pub commit-Keeps : Keeps IsKnown commit
  unfolding commit
  commit-Keeps = record {
    keeps = λ s p. elim (Bool-cases (clash s.rivals s.db.alerts)) [
      | inl b ↦ rw b (p.0, HasKey-append s.rivals s.saved.alerts p.1)
      | inr b ↦
          rw b (HasKey-append s.rivals s.db.alerts p.0, HasKey-append s.rivals s.db.alerts p.0)
    ];
  }

  -- an action that leaves the session as it was
  pub Reads-Keeps : {A : Type 0} (Q : A → Type 0) (m : M A) → Reads Q m → Keeps IsKnown m
  Reads-Keeps Q m r = record { keeps = λ s p. subst IsKnown (sym (r.unchanged s)) p }

  pub mark_processed-Keeps :
      (alert_id : ℕ) (reason : Option Reason) → Keeps IsKnown (mark_processed alert_id reason)
  unfolding mark_processed
  mark_processed-Keeps alert_id reason =
      modify_db-Keeps _ (λ d h. HasKey-update alert_id reason d.alerts h)

  pub add_execution-Keeps : (make : ℕ → TradeExecution) → Keeps IsKnown (add_execution make)
  unfolding add_execution
  add_execution-Keeps make = record { keeps = λ s p. p }

  sent-Keeps : {A : Type 0} (o : Order) (m : M A) → Keeps IsKnown m → Keeps IsKnown (send o >> m)
  sent-Keeps o m h = record { keeps = λ s p. h.keeps (record s { orders = s.orders ++ o ∷ [] }) p }

  persist_leg-Keeps :
      (validated : ValidatedTrade) (tp : Option Decimal) (result : OrderResult)
      (row : TradeExecution)
      → Keeps IsKnown (persist_leg validated tp result row)
  unfolding persist_leg
  persist_leg-Keeps validated tp result row =
      modify_db-Keeps _
        (λ d h. subst HasKey (sym (leg_if-KeepsRows validated tp result row d).same_alerts) h)

  -- the end of every execution
  finish-Keeps : {A : Type 0} (a : A) → Keeps IsKnown (commit >> pure a)
  finish-Keeps a =
      Keeps-bind IsKnown commit (λ _. pure a) commit-Keeps (λ _. Keeps-pure IsKnown (ok a))

  pub mark_commit-Keeps :
      {A : Type 0} (alert_id : ℕ) (reason : Option Reason) (m : M A)
      → Keeps IsKnown m
      → Keeps IsKnown (mark_processed alert_id reason >> (commit >> m))
  mark_commit-Keeps alert_id reason m h =
      Keeps-bind IsKnown _ _ (mark_processed-Keeps alert_id reason)
        (λ _. Keeps-bind IsKnown commit _ commit-Keeps (λ _. h))

  module _ (user : User) (alert_id : ℕ) (validated : ValidatedTrade) where
    record_result-Keeps :
        (tp : Option Decimal) (result : OrderResult) (status : ExecutionStatus)
        (fill : Option Decimal)
        → Keeps IsKnown (record_result user alert_id validated tp result status fill)
    unfolding record_result
    record_result-Keeps tp result status fill =
        Keeps-bind IsKnown get_db _ (record { keeps = λ s p. p })
          (λ db.
            Keeps-bind IsKnown _ _
              (add_execution-Keeps (
                result_row user alert_id validated tp result status fill
                  (close_pnl user validated status fill db)))
              (λ row.
                Keeps-bind IsKnown _ _
                  (persist_leg-Keeps validated (leg_price status result tp) result row)
                  (λ _. mark_commit-Keeps alert_id none _ (Keeps-pure IsKnown (ok row)))))

    skip_close-Keeps : (reason : Reason) → Keeps IsKnown (skip_close user alert_id validated reason)
    unfolding skip_close
    skip_close-Keeps reason =
        Keeps-bind IsKnown _ _ (add_execution-Keeps _)
          (λ row. mark_commit-Keeps alert_id (some reason) _ (Keeps-pure IsKnown (ok row)))

    reject_invalid-Keeps : Keeps IsKnown (reject_invalid user alert_id validated)
    unfolding reject_invalid
    reject_invalid-Keeps = Keeps-bind IsKnown _ _ (add_execution-Keeps _) (λ row. finish-Keeps row)

    module _ (adapter : BrokerAdapter) where
      after_answer-Keeps :
          (tp : Option Decimal) (result : OrderResult)
          → Keeps IsKnown (after_answer user alert_id validated adapter tp result)
      unfolding after_answer record_fill
      after_answer-Keeps tp result =
          Keeps-bind IsKnown _ _
            (Reads-Keeps Any _ (resolve_fill-Reads adapter result.order_id validated.ask))
            (λ (status, fill). record_result-Keeps tp result _ fill)

      submit_order-Keeps : Keeps IsKnown (submit_order user alert_id validated adapter)
      unfolding submit_order place
      submit_order-Keeps =
          Keeps-bind IsKnown _ _
            (sent-Keeps _ _ (
              Reads-Keeps Any _ (
                order_answer-Reads adapter validated (effective_mode user)
                  (tp_price_of validated))))
            (λ result. after_answer-Keeps (tp_price_of validated) result)

      skip_or_submit-Keeps :
          (o : Option Reason) → Keeps IsKnown (skip_or_submit user alert_id validated adapter o)
      unfolding skip_or_submit
      skip_or_submit-Keeps none = submit_order-Keeps
      skip_or_submit-Keeps (some reason) = skip_close-Keeps reason

      execute_valid-Keeps : Keeps IsKnown (execute_valid user alert_id validated adapter)
      unfolding execute_valid
      execute_valid-Keeps =
          Keeps-bind IsKnown _ _ (Reads-Keeps Any _ (close_check-Reads validated adapter))
            (λ o. skip_or_submit-Keeps o)

      pub execute_trade-Keeps : Keeps IsKnown (execute_trade user alert_id validated adapter)
      unfolding execute_trade
      execute_trade-Keeps =
          Keeps-if IsKnown (is_clean validated.validation_errors) _ _ execute_valid-Keeps
            reject_invalid-Keeps

  module _ (user : User) (alert_id : ℕ) (validated : ValidatedFuturesTrade) where
    record_futures-Keeps :
        (result : OrderResult) → Keeps IsKnown (record_futures user alert_id validated result)
    unfolding record_futures
    record_futures-Keeps result =
        Keeps-bind IsKnown _ _ (add_execution-Keeps _)
          (λ row. mark_commit-Keeps alert_id none _ (Keeps-pure IsKnown (ok row)))

    reject_futures-Keeps : Keeps IsKnown (reject_futures user alert_id validated)
    unfolding reject_futures
    reject_futures-Keeps = Keeps-bind IsKnown _ _ (add_execution-Keeps _) (λ row. finish-Keeps row)

    module _ (adapter : NinjaTraderAdapter) (transport : Transport) (token : String) where
      delivered :
          (dry_run : Bool) (s : Session)
          → IsDelivered adapter transport user.id
              (build_order_payload token validated dry_run)
              s
              (execute_futures_order adapter transport token user.id validated dry_run s)
      delivered dry_run s =
          execute_futures_order-IsDelivered adapter transport token user.id validated dry_run s

      deliver-Keeps :
          (dry_run : Bool)
          → Keeps IsKnown (execute_futures_order adapter transport token user.id validated dry_run)
      deliver-Keeps dry_run = record {
        keeps = λ s p. subst IsKnown (sym (delivered dry_run s).session_is) p;
      }

      pub execute_futures_trade-Keeps :
          Keeps IsKnown (execute_futures_trade user alert_id validated adapter transport token)
      unfolding execute_futures_trade submit_futures
      execute_futures_trade-Keeps =
          Keeps-if IsKnown (is_clean validated.validation_errors) _ _
            (Keeps-bind IsKnown _ _ (deliver-Keeps _) (λ result. record_futures-Keeps result))
            reject_futures-Keeps
