-- ===== src/Futures/Laws.antt =====
-- What a futures execution sends, and in which mode.
use mathlib.Core.Path.{subst}
use mathlib.Core.List.{append-nil}
use trade_receiver.Prelude.{
  ℕ, String, true, false, none, some, List, [], ◌++◌, ◌≡◌, ◌≢◌, refl, sym, ap, ◌∙◌, ◌⊎◌, inl, inr,
  arith, ◌==◌, Bool-cases, eq_iff, In, In-append_left, In-append_cases, In-append_right,
  if◌then◌else◌,
}
use trade_receiver.Prelude.Int.{pos, ◌≤ℤ◌, max_ℤ}
use trade_receiver.Trade.{ValidatedFuturesTrade, NinjaTraderOrderPayload, OrderResult}
use trade_receiver.Tables.{User, submitted, failed, validation_failed, TradeExecution}
use trade_receiver.Session.{
  Session, Order, option_order, bridge_order, forward_order, Result, Error, ok, err, ◌>>=◌, lift,
  pure,
}
use trade_receiver.Session.Rules.{commit_then}
use trade_receiver.Execution.{effective_mode, is_clean, add_execution, mark_processed}
use trade_receiver.Execution.Effects.{mark_alert, IsRecorded}
use trade_receiver.Execution.Laws.{is_clean→≡, ok_inj}
use trade_receiver.NinjaTrader.{NinjaTraderAdapter, Transport, build_order_payload}
use trade_receiver.NinjaTrader.Laws.{
  Delivery, nothing, bridged, forwarded, both, Accepted, IsSkipped, IsDelivered,
  execute_futures_order-IsDelivered,
}
use trade_receiver.Futures.{
  reject_futures, record_futures, submit_futures, execute_futures_trade, compute_futures_quantity,
}

after : Session → List Order → Session
after s sent = record s { orders = s.orders ++ sent }

-- The ways in which a futures execution ends: a row for a trade with validation errors, a row for
-- what the adapter answered, or an exception after the orders that went out.
pub data Traded (user : User) (alert_id : ℕ) (body : NinjaTraderOrderPayload)
    (validated : ValidatedFuturesTrade) (adapter : NinjaTraderAdapter) (transport : Transport)
    (s : Session) (p : Result TradeExecution × Session) : Type 0 where
  refused :
      (row : TradeExecution) (s' : Session)
      → p ≡ (ok row, s')
      → is_clean validated.validation_errors ≡ false
      → row.status ≡ validation_failed
      → IsRecorded s s.db.alerts row s'
      → Traded user alert_id body validated adapter transport s p
  answered :
      (sent : List Order) (row : TradeExecution) (s' : Session)
      → p ≡ (ok row, s')
      → is_clean validated.validation_errors ≡ true
      → Delivery adapter user.id body sent
      → (row.status ≡ submitted → (sent ≢ []) ⊎ IsSkipped transport user.id body s.orders)
      → IsRecorded
          (record s { orders = s.orders ++ sent })
          (mark_alert alert_id none s.db.alerts)
          row
          s'
      → Traded user alert_id body validated adapter transport s p
  raised :
      (sent : List Order) (x : Error)
      → p ≡ (err x, record s { orders = s.orders ++ sent })
      → is_clean validated.validation_errors ≡ true
      → Delivery adapter user.id body sent
      → Traded user alert_id body validated adapter transport s p

status_accepted :
    (result : OrderResult)
    → (if result.success then submitted else failed) ≡ submitted
    → result.success ≡ true
status_accepted result h = ground arith

module _ (user : User) (alert_id : ℕ) (validated : ValidatedFuturesTrade) (s : Session)
    (h : s.rivals ≡ []) where
  reject_futures-IsRecorded :
      (row : TradeExecution) × (s' : Session) × (reject_futures user alert_id validated s
        ≡ (ok row, s'))
      × (row.status ≡ validation_failed)
      × IsRecorded s s.db.alerts row s'
  unfolding reject_futures add_execution
  reject_futures-IsRecorded = (
    _,
    _,
    commit_then _ (pure _) h,
    refl,
    record {
      committed = refl;
      stored = In-append_right s.db.executions _ _ (inl refl);
      kept = λ r i. In-append_left s.db.executions _ r i;
      alerts_are = refl;
      orders_are = refl;
    },
  )

  record_futures-IsRecorded :
      (result : OrderResult)
      → (row : TradeExecution) × (s' : Session) × (record_futures user alert_id validated result s
          ≡ (ok row, s'))
        × (row.status ≡ (if result.success then submitted else failed))
        × IsRecorded s (mark_alert alert_id none s.db.alerts) row s'
  unfolding record_futures add_execution mark_processed
  record_futures-IsRecorded result = (
    _,
    _,
    commit_then _ (pure _) h,
    refl,
    record {
      committed = refl;
      stored = In-append_right s.db.executions _ _ (inl refl);
      kept = λ r i. In-append_left s.db.executions _ r i;
      alerts_are = refl;
      orders_are = refl;
    },
  )

-- the payload of a trade: a dry run in paper mode
abbrev pub body_of : User → ValidatedFuturesTrade → String → NinjaTraderOrderPayload
body_of user validated token = build_order_payload token validated (effective_mode user == "paper")

module _ (user : User) (alert_id : ℕ) (validated : ValidatedFuturesTrade)
    (adapter : NinjaTraderAdapter) (transport : Transport) (token : String) (s : Session)
    (h : s.rivals ≡ []) where
  module _ (clean : is_clean validated.validation_errors ≡ true) where
    answer-Traded :
        (result : Result OrderResult) (sent : List Order)
        → Delivery adapter user.id (body_of user validated token) sent
        → (Accepted result
            → (sent ≢ []) ⊎ IsSkipped transport user.id (body_of user validated token) s.orders)
        → Traded user alert_id (body_of user validated token) validated adapter transport s (
            (lift result >>= record_futures user alert_id validated)
              (record s { orders = s.orders ++ sent }))
    answer-Traded (err x) sent d honest = raised sent x refl clean d
    answer-Traded (ok result) sent d honest =
        let (row, s', e, status, r) =
          record_futures-IsRecorded user alert_id validated (record s { orders = s.orders ++ sent })
            h result in
        answered sent row s' e clean d (λ done. honest (status_accepted result (sym status ∙ done)))
          r

    submitted-Traded :
        (p : Result OrderResult × Session)
        → IsDelivered adapter transport user.id (body_of user validated token) s p
        → Traded user alert_id
            (body_of user validated token)
            validated
            adapter
            transport
            s
            ((lift p.0 >>= record_futures user alert_id validated) p.1)
    submitted-Traded p d =
        subst
          (λ t.
            Traded user alert_id (body_of user validated token) validated adapter transport s
              ((lift p.0 >>= record_futures user alert_id validated) t))
          (sym d.session_is) (answer-Traded p.0 d.sent d.delivery d.honest)

    submit_futures-Traded :
        Traded user alert_id
          (body_of user validated token)
          validated
          adapter
          transport
          s
          (submit_futures user alert_id validated adapter transport token s)
    unfolding submit_futures
    submit_futures-Traded = submitted-Traded _ (
        execute_futures_order-IsDelivered adapter transport token user.id validated
          (effective_mode user == "paper") s)

  execute_futures_trade-Traded :
      Traded user alert_id
        (body_of user validated token)
        validated
        adapter
        transport
        s
        (execute_futures_trade user alert_id validated adapter transport token s)
  unfolding execute_futures_trade
  execute_futures_trade-Traded = elim (Bool-cases (is_clean validated.validation_errors)) [
    | inl clean ↦ rw clean (submit_futures-Traded clean)
    | inr dirty ↦
        let (row, s', e, status, r) = reject_futures-IsRecorded user alert_id validated s h in
        refused row s' (rw dirty e) dirty status r
  ]

failed_validation :
    (row row' : TradeExecution)
    → row ≡ row'
    → row.status ≡ validation_failed
    → row'.status ≡ submitted
    → ⊥
failed_validation row row' e f g = cc

same_row :
    (p : Result TradeExecution × Session) (row row' : TradeExecution) (s' : Session)
    → p ≡ (ok row, s')
    → p.0 ≡ ok row'
    → row ≡ row'
same_row p row row' s' e f = ok_inj (sym (ap (λ q. q.0) e) ∙ f)

-- The orders that a futures execution sends.
pub record IsSent (user : User) (body : NinjaTraderOrderPayload) (validated : ValidatedFuturesTrade)
    (adapter : NinjaTraderAdapter) (transport : Transport) (s : Session)
    (p : Result TradeExecution × Session) : Type 0 where
  pub sent : List Order
  pub orders_are : p.1.orders ≡ s.orders ++ sent
  pub delivery : Delivery adapter user.id body sent
  pub valid : sent ≢ [] → validated.validation_errors ≡ []
  pub honest :
      (row : TradeExecution)
      → p.0 ≡ ok row
      → row.status ≡ submitted
      → (sent ≢ []) ⊎ IsSkipped transport user.id body s.orders

pub execute_futures_trade_orders :
    (user : User) (alert_id : ℕ) (validated : ValidatedFuturesTrade) (adapter : NinjaTraderAdapter)
    (transport : Transport) (token : String) (s : Session)
    → s.rivals ≡ []
    → IsSent user
        (body_of user validated token)
        validated
        adapter
        transport
        s
        (execute_futures_trade user alert_id validated adapter transport token s)
execute_futures_trade_orders user alert_id validated adapter transport token s h =
    from (execute_futures_trade-Traded user alert_id validated adapter transport token s h)
  where
    from :
        {p : Result TradeExecution × Session}
        → Traded user alert_id (body_of user validated token) validated adapter transport s p
        → IsSent user (body_of user validated token) validated adapter transport s p
    from (refused row s' e dirty status r) = record {
      sent = [];
      orders_are = ap (λ q. q.1.orders) e ∙ r.orders_are ∙ sym (append-nil s.orders);
      delivery = nothing;
      valid = λ n. absurd (n refl);
      honest = λ row' e' done.
          absurd (failed_validation row row' (same_row _ row row' s' e e') status done);
    }
    from (answered sent row s' e clean d honest r) = record {
      sent = sent;
      orders_are = ap (λ q. q.1.orders) e ∙ r.orders_are;
      delivery = d;
      valid = λ n. is_clean→≡ _ clean;
      honest = λ row' e' done. honest (ap (λ q. q.status) (same_row _ row row' s' e e') ∙ done);
    }
    from (raised sent x e clean d) = record {
      sent = sent;
      orders_are = ap (λ q. q.1.orders) e;
      delivery = d;
      valid = λ n. is_clean→≡ _ clean;
      honest = λ row' e' done. cc (ap (λ q. q.0) e);
    }

abbrev pub IsDry : Order → Type 0
IsDry (option_order _ _ _ _ _) = ⊥
IsDry (bridge_order _ body) = body.dry_run ≡ some true
IsDry (forward_order _ body) = body.dry_run ≡ some true

paper_mode :
    (user : User)
    → user.live_trading_enabled ≡ false
    → (user.default_mode ≡ "paper") ⊎ (user.default_mode ≡ "live")
    → effective_mode user ≡ "paper"
unfolding effective_mode
paper_mode user off mode = elim mode [
  | inl paper ↦ ground (arith, eq_iff user.default_mode "live")
  | inr live ↦ ground (arith, eq_iff user.default_mode "live")
]

paper_body :
    (user : User) (validated : ValidatedFuturesTrade) (token : String)
    → effective_mode user ≡ "paper"
    → (body_of user validated token).dry_run ≡ some true
unfolding build_order_payload
paper_body user validated token h = rw h refl

Delivery-IsDry :
    (adapter : NinjaTraderAdapter) (user_id : String) (body : NinjaTraderOrderPayload)
    (sent : List Order) (o : Order)
    → body.dry_run ≡ some true
    → Delivery adapter user_id body sent
    → In o sent
    → IsDry o
Delivery-IsDry adapter user_id body sent o dry nothing i = absurd i
Delivery-IsDry adapter user_id body sent o dry bridged (inl e) = subst IsDry (sym e) dry
Delivery-IsDry adapter user_id body sent o dry (forwarded _) (inl e) = subst IsDry (sym e) dry
Delivery-IsDry adapter user_id body sent o dry bridged (inr i) = absurd i
Delivery-IsDry adapter user_id body sent o dry (forwarded _) (inr i) = absurd i
Delivery-IsDry adapter user_id body sent o dry (both _) (inr (inr i)) = absurd i
Delivery-IsDry adapter user_id body sent o dry (both _) (inl e) = subst IsDry (sym e) dry
Delivery-IsDry adapter user_id body sent o dry (both _) (inr (inl e)) = subst IsDry (sym e) dry

-- While live trading is not enabled, and the default mode is "paper" or "live", every order that a
-- futures execution adds to those already sent is a dry run.
pub execute_futures_trade-IsDry :
    (user : User) (alert_id : ℕ) (validated : ValidatedFuturesTrade) (adapter : NinjaTraderAdapter)
    (transport : Transport) (token : String) (s : Session) (o : Order)
    → s.rivals ≡ []
    → user.live_trading_enabled ≡ false
    → (user.default_mode ≡ "paper") ⊎ (user.default_mode ≡ "live")
    → In o (execute_futures_trade user alert_id validated adapter transport token s).1.orders
    → In o s.orders ⊎ IsDry o
execute_futures_trade-IsDry user alert_id validated adapter transport token s o h off mode i =
    let r = execute_futures_trade_orders user alert_id validated adapter transport token s h in
    elim (In-append_cases s.orders r.sent o (subst (In o) r.orders_are i)) [
      | inl old ↦ inl old
      | inr new ↦ inr (
          Delivery-IsDry adapter user.id (body_of user validated token) r.sent o
            (paper_body user validated token (paper_mode user off mode)) r.delivery new)
    ]

-- The quantity of a futures order is at least one, at most what was asked for, or one, and at most
-- the user's cap, or one.
pub compute_futures_quantity_bounds :
    (user : User) (validated : ValidatedFuturesTrade)
    → let q = compute_futures_quantity user validated in
      (pos 1 ≤ℤ q)
      × (q ≤ℤ max_ℤ (pos 1) validated.quantity)
      × (q ≤ℤ max_ℤ (pos 1) user.max_contracts)
unfolding compute_futures_quantity
compute_futures_quantity_bounds user validated = ground arith
