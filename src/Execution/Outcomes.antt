-- ===== src/Execution/Outcomes.antt =====
-- Every way in which `execute_trade` can end.
use mathlib.Core.Path.{subst}
use trade_receiver.Prelude.{
  ℕ, String, true, false, Option, none, some, [], ◌∷◌, ◌++◌, ◌≡◌, inl, inr, ◌∙◌, sym, Bool-cases,
  ◌==◌,
}
use trade_receiver.Prelude.Int.{Decimal}
use trade_receiver.Trade.{ValidatedTrade, OrderResult}
use trade_receiver.Tables.{
  User, Reason, ExecutionStatus, validation_failed, skipped, TradeExecution,
}
use trade_receiver.Session.{Session, Result, Error, ok, err, Order, option_order}
use trade_receiver.Session.Rules.{Reads, Reads-pure, Reads-if, Reads-ask, Reads-bind, bind_cases}
use trade_receiver.Broker.{BrokerAdapter}
use trade_receiver.Orders.{positions, validate_close_position}
use trade_receiver.Orders.Fill.{resolve_fill, order_status}
use trade_receiver.Orders.Pnl.{is_sell_to_close}
use trade_receiver.Execution.{
  effective_mode, is_buy_to_open, is_clean, close_check, order_answer, place, submit_order,
  skip_or_submit, execute_valid, execute_trade, after_result, record_fill, after_answer,
  tp_price_of,
}
use trade_receiver.Execution.Effects.{
  mark_alert, IsRecorded, reject_invalid-IsRecorded, skip_close-IsRecorded,
  record_result-IsRecorded,
}

-- the order that the trade stands for, and the session in which it has been sent
abbrev pub order_of : User → ValidatedTrade → Order
order_of user validated =
    option_order validated.contract_symbol validated.quantity (is_buy_to_open validated.action)
      (effective_mode user) (tp_price_of validated)

abbrev pub sent : User → ValidatedTrade → Session → Session
sent user validated s = record s { orders = s.orders ++ order_of user validated ∷ [] }

-- An execution of a trade from the session `s`, with its result and the session after it.
pub data Executed (user : User) (alert_id : ℕ) (validated : ValidatedTrade)
    (adapter : BrokerAdapter) (s : Session) (p : Result TradeExecution × Session) : Type 0 where
  rejected :
      (row : TradeExecution) (s' : Session)
      → p ≡ (ok row, s')
      → is_clean validated.validation_errors ≡ false
      → row.status ≡ validation_failed
      → row.mode ≡ effective_mode user
      → IsRecorded s s.db.alerts row s'
      → Executed user alert_id validated adapter s p
  refused :
      (reason : Reason) (row : TradeExecution) (s' : Session)
      → p ≡ (ok row, s')
      → is_clean validated.validation_errors ≡ true
      → (close_check validated adapter s).0 ≡ ok (some reason)
      → row.status ≡ skipped
      → row.mode ≡ effective_mode user
      → IsRecorded s (mark_alert alert_id (some reason) s.db.alerts) row s'
      → Executed user alert_id validated adapter s p
  placed :
      (row : TradeExecution) (s' : Session)
      → p ≡ (ok row, s')
      → is_clean validated.validation_errors ≡ true
      → (close_check validated adapter s).0 ≡ ok none
      → row.mode ≡ effective_mode user
      → IsRecorded (sent user validated s) (mark_alert alert_id none s.db.alerts) row s'
      → Executed user alert_id validated adapter s p
  not_checked :
      (e : Error)
      → p ≡ (err e, s)
      → is_clean validated.validation_errors ≡ true
      → Executed user alert_id validated adapter s p
  unanswered :
      (e : Error)
      → p ≡ (err e, sent user validated s)
      → is_clean validated.validation_errors ≡ true
      → (close_check validated adapter s).0 ≡ ok none
      → Executed user alert_id validated adapter s p

abbrev pub Any : {A : Type 0} → A → Type 0
Any a = Unit {0}

pub close_check-Reads :
    (validated : ValidatedTrade) (adapter : BrokerAdapter)
    → Reads Any (close_check validated adapter)
unfolding close_check validate_close_position
close_check-Reads validated adapter =
    Reads-if _ (is_sell_to_close validated.action) _ _
      (Reads-bind Any Any (positions adapter) _
        (Reads-ask Any (λ s. adapter.get_positions s.orders) (λ _. tt))
        (λ ps _. Reads-pure Any _ tt))
      (Reads-pure Any none tt)

pub order_answer-Reads :
    (adapter : BrokerAdapter) (validated : ValidatedTrade) (mode : String) (tp : Option Decimal)
    → Reads Any (order_answer adapter validated mode tp)
unfolding order_answer
order_answer-Reads adapter validated mode none = Reads-ask Any _ (λ _. tt)
order_answer-Reads adapter validated mode (some tp) = Reads-ask Any _ (λ _. tt)

pub resolve_fill-Reads :
    (adapter : BrokerAdapter) (order_id : Option String) (fallback : Option Decimal)
    → Reads Any (resolve_fill adapter order_id fallback)
unfolding resolve_fill
resolve_fill-Reads adapter none fallback = Reads-pure Any _ tt
resolve_fill-Reads adapter (some order_id) fallback =
    Reads-if Any (order_id == "") _ _ (Reads-pure Any _ tt) (
      Reads-bind Any Any (order_status adapter order_id) _
        (Reads-ask Any (λ s. adapter.get_order_status s.orders order_id) (λ _. tt))
        (λ st _. Reads-pure Any _ tt))

module _ (user : User) (alert_id : ℕ) (validated : ValidatedTrade) (adapter : BrokerAdapter)
    (s : Session) (h : s.rivals ≡ []) (clean : is_clean validated.validation_errors ≡ true) where
  module _ (checked : (close_check validated adapter s).0 ≡ ok none) where
    after_answer-Executed :
        (result : OrderResult) (p : Result TradeExecution × Session)
        → p
          ≡ after_answer user alert_id validated adapter
              (tp_price_of validated)
              result
              (sent user validated s)
        → Executed user alert_id validated adapter s p
    unfolding after_answer record_fill
    after_answer-Executed result p e =
        elim (bind_cases Any (resolve_fill adapter result.order_id validated.ask)
          (record_fill user alert_id validated (tp_price_of validated) result)
          (sent user validated s) (resolve_fill-Reads adapter result.order_id validated.ask)) [
            | inr (x, raised) ↦ unanswered x (e ∙ raised) clean checked
            | inl (fill, _, _, goes_on) ↦ recorded fill (e ∙ goes_on)
          ]
      where
        recorded :
            (fill : ExecutionStatus × Option Decimal)
            → p
              ≡ record_fill user alert_id validated
                  (tp_price_of validated)
                  result
                  fill
                  (sent user validated s)
            → Executed user alert_id validated adapter s p
        recorded (status, fill_price) e' =
            let (row, s', done, r, _, in_mode) =
              record_result-IsRecorded user alert_id validated (sent user validated s) h
                (tp_price_of validated) result (after_result result status) fill_price in
            placed row s' (e' ∙ done) clean checked in_mode r

    submit_order-Executed :
        Executed user alert_id validated adapter s (submit_order user alert_id validated adapter s)
    unfolding submit_order place
    submit_order-Executed =
        elim (bind_cases Any
          (order_answer adapter validated (effective_mode user) (tp_price_of validated))
          (after_answer user alert_id validated adapter (tp_price_of validated))
          (sent user validated s)
          (order_answer-Reads adapter validated (effective_mode user) (tp_price_of validated))) [
            | inr (x, raised) ↦ unanswered x raised clean checked
            | inl (result, _, _, goes_on) ↦ after_answer-Executed result _ goes_on
          ]

  skip_or_submit-Executed :
      (o : Option Reason) (p : Result TradeExecution × Session)
      → (close_check validated adapter s).0 ≡ ok o
      → p ≡ skip_or_submit user alert_id validated adapter o s
      → Executed user alert_id validated adapter s p
  unfolding skip_or_submit
  skip_or_submit-Executed none p checked e =
      subst (Executed user alert_id validated adapter s) (sym e) (submit_order-Executed checked)
  skip_or_submit-Executed (some reason) p checked e =
      let (row, s', done, r, status, in_mode) =
        skip_close-IsRecorded user alert_id validated s h reason in
      refused reason row s' (e ∙ done) clean checked status in_mode r

  execute_valid-Executed :
      Executed user alert_id validated adapter s (execute_valid user alert_id validated adapter s)
  unfolding execute_valid
  execute_valid-Executed =
      elim (bind_cases Any (close_check validated adapter)
        (skip_or_submit user alert_id validated adapter) s (close_check-Reads validated adapter)) [
          | inr (x, raised) ↦ not_checked x raised clean
          | inl (o, _, checked, goes_on) ↦ skip_or_submit-Executed o _ checked goes_on
        ]

-- From a session with no rival rows, an execution ends in one of the five ways of `Executed`.
pub execute_trade-Executed :
    (user : User) (alert_id : ℕ) (validated : ValidatedTrade) (adapter : BrokerAdapter)
    (s : Session)
    → s.rivals ≡ []
    → Executed user alert_id validated adapter s (execute_trade user alert_id validated adapter s)
unfolding execute_trade
execute_trade-Executed user alert_id validated adapter s h =
    elim (Bool-cases (is_clean validated.validation_errors)) [
      | inl clean ↦ rw clean (execute_valid-Executed user alert_id validated adapter s h clean)
      | inr dirty ↦
          let (row, s', done, r, status, in_mode) =
            reject_invalid-IsRecorded user alert_id validated s h in
          rejected row s' (rw dirty done) dirty status in_mode r
    ]
