-- ===== src/Execution/Effects.antt =====
-- What an execution does to the session: the orders that it sends and the rows that it leaves.
use trade_receiver.Prelude.{
  ℕ, String, Option, none, some, List, [], ◌∷◌, ◌≡◌, refl, inl, ap, In, In-append_left,
  In-append_right, ◌&&◌, if◌then◌else◌, update, eqb,
}
use trade_receiver.Prelude.Int.{Decimal}
use trade_receiver.Trade.{ValidatedTrade, OrderResult}
use trade_receiver.Tables.{
  User, Reason, InboundAlert, ExecutionStatus, validation_failed, skipped, TradeExecution, Db,
}
use trade_receiver.Session.{Session, ok, ◌>>◌, pure, modify_db, commit}
use trade_receiver.Session.Rules.{commit_then}
use trade_receiver.Execution.{
  mark, mark_processed, leg_if, record_result, effective_mode, reject_invalid, skip_close,
  is_open_status,
}
use trade_receiver.Execution.TakeProfit.{add_unless, add_leg, add_leg_as, append_row}

abbrev pub mark_alert : ℕ → Option Reason → List InboundAlert → List InboundAlert
mark_alert alert_id reason = update (λ a. eqb a.id alert_id) (mark reason)

-- The request is over: its row is stored and committed, older rows are kept, no order was sent.
pub record IsRecorded (s : Session) (alerts : List InboundAlert) (row : TradeExecution)
    (s' : Session) : Type 0 where
  pub committed : s'.saved ≡ s'.db
  pub stored : In row s'.db.executions
  pub kept : (r : TradeExecution) → In r s.db.executions → In r s'.db.executions
  pub alerts_are : s'.db.alerts ≡ alerts
  pub orders_are : s'.orders ≡ s.orders

-- a leg is added to the rows, and the alerts are left alone
pub record KeepsRows (d d' : Db) : Type 0 where
  pub kept : (r : TradeExecution) → In r d.executions → In r d'.executions
  pub same_alerts : d'.alerts ≡ d.alerts

KeepsRows-refl : (d : Db) → KeepsRows d d
KeepsRows-refl d = record { kept = λ r i. i; same_alerts = refl }

append_row-KeepsRows : (row : TradeExecution) (d : Db) → KeepsRows d (append_row row d)
append_row-KeepsRows row d = record {
  kept = λ r i. In-append_left d.executions (row ∷ []) r i;
  same_alerts = refl;
}

add_unless-KeepsRows :
    (found : Option TradeExecution) (row : TradeExecution) (d : Db)
    → KeepsRows d (add_unless found row d)
unfolding add_unless
add_unless-KeepsRows (some existing) row d = KeepsRows-refl d
add_unless-KeepsRows none row d = append_row-KeepsRows row d

add_leg_as-KeepsRows :
    (validated : ValidatedTrade) (tp_price : Decimal) (result : OrderResult)
    (entry : TradeExecution) (order_id : Option String) (d : Db)
    → KeepsRows d (add_leg_as validated tp_price result entry order_id d)
unfolding add_leg_as add_leg
add_leg_as-KeepsRows validated tp_price result entry none d = KeepsRows-refl d
add_leg_as-KeepsRows validated tp_price result entry (some order_id) d = add_unless-KeepsRows _ _ d

pub leg_if-KeepsRows :
    (validated : ValidatedTrade) (tp_price : Option Decimal) (result : OrderResult)
    (row : TradeExecution) (d : Db)
    → KeepsRows d (leg_if validated tp_price result row d)
unfolding leg_if
leg_if-KeepsRows validated none result row d = KeepsRows-refl d
leg_if-KeepsRows validated (some tp_price) result row d =
    add_leg_as-KeepsRows validated tp_price result row _ d

-- the last steps of an execution that reached the broker
finish-IsRecorded :
    (s : Session) (f : Db → Db) (row : TradeExecution) (alert_id : ℕ) (reason : Option Reason)
    → s.rivals ≡ []
    → KeepsRows (append_row row s.db) (f (append_row row s.db))
    → (s' : Session) × ((do
      modify_db (append_row row)
      modify_db f
      mark_processed alert_id reason
      commit
      pure row)
          s
        ≡ (ok row, s'))
      × IsRecorded s (mark_alert alert_id reason s.db.alerts) row s'
unfolding mark_processed
finish-IsRecorded s f row alert_id reason h k = (
  _,
  commit_then _ (pure _) h,
  record {
    committed = refl;
    stored = k.kept row (In-append_right s.db.executions (row ∷ []) row (inl refl));
    kept = λ r i. k.kept r (In-append_left s.db.executions (row ∷ []) r i);
    alerts_are = ap (mark_alert alert_id reason) k.same_alerts;
    orders_are = refl;
  },
)

-- The three ways in which an execution ends with a row.
module _ (user : User) (alert_id : ℕ) (validated : ValidatedTrade) (s : Session)
    (h : s.rivals ≡ []) where
  pub reject_invalid-IsRecorded :
      (row : TradeExecution) × (s' : Session) × (reject_invalid user alert_id validated s
        ≡ (ok row, s'))
      × IsRecorded s s.db.alerts row s'
      × (row.status ≡ validation_failed)
      × (row.mode ≡ effective_mode user)
  unfolding reject_invalid
  reject_invalid-IsRecorded = (
    _,
    _,
    commit_then _ (pure _) h,
    record {
      committed = refl;
      stored = In-append_right s.db.executions _ _ (inl refl);
      kept = λ r i. In-append_left s.db.executions _ r i;
      alerts_are = refl;
      orders_are = refl;
    },
    refl,
    refl,
  )

  pub skip_close-IsRecorded :
      (reason : Reason)
      → (row : TradeExecution) × (s' : Session) × (skip_close user alert_id validated reason s
          ≡ (ok row, s'))
        × IsRecorded s (mark_alert alert_id (some reason) s.db.alerts) row s'
        × (row.status ≡ skipped)
        × (row.mode ≡ effective_mode user)
  unfolding skip_close
  skip_close-IsRecorded reason =
      let (s', e, r) = finish-IsRecorded s (λ d. d) _ alert_id (some reason) h (KeepsRows-refl _) in
      (_, s', e, r, refl, refl)

  pub record_result-IsRecorded :
      (tp_price : Option Decimal) (result : OrderResult) (status : ExecutionStatus)
      (fill_price : Option Decimal)
      → (row : TradeExecution) × (s' : Session) × (record_result user alert_id validated tp_price
            result status fill_price s
          ≡ (ok row, s'))
        × IsRecorded s (mark_alert alert_id none s.db.alerts) row s'
        × (row.status ≡ status)
        × (row.mode ≡ effective_mode user)
  unfolding record_result
  record_result-IsRecorded tp_price result status fill_price =
      let (s', e, r) =
        finish-IsRecorded s
          (leg_if validated (if is_open_status status && result.success then tp_price else none)
            result _)
          _ alert_id none h (leg_if-KeepsRows validated _ result _ _) in
      (_, s', e, r, refl, refl)
