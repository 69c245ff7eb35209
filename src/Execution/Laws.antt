-- ===== src/Execution/Laws.antt =====
-- What an execution guarantees, read off its five outcomes.
use mathlib.Core.Path.{subst₂}
use trade_receiver.Prelude.{
  ℕ, String, true, Option, none, some, List, [], ◌∷◌, ◌++◌, ◌≡◌, refl, sym, ap, ◌⊎◌, inl, inr, ◌∙◌,
  arith, In, find, ◌==◌,
}
use trade_receiver.Prelude.Int.{ℤ, pos, Decimal, ◌≤ℤ◌, ◌<ℤ◌}
use trade_receiver.Trade.{sell_to_close, ValidatedTrade, ValidationError}
use trade_receiver.Tables.{User, Reason, InboundAlert, validation_failed, TradeExecution}
use trade_receiver.Session.{Session, Result, Error, ok, err, lift, pure, ◌>>=◌}
use trade_receiver.Broker.{BrokerAdapter, Position}
use trade_receiver.Orders.{close_error, held_quantity, whole, validate_close_position}
use trade_receiver.Orders.Pnl.{is_sell_to_close}
use trade_receiver.Execution.{effective_mode, is_clean, close_check, execute_trade}
use trade_receiver.Execution.Effects.{mark_alert, IsRecorded}
use trade_receiver.Execution.Outcomes.{
  order_of, sent, Executed, rejected, refused, placed, not_checked, unanswered,
  execute_trade-Executed,
}

pub is_clean→≡ : (es : List ValidationError) → is_clean es ≡ true → es ≡ []
is_clean→≡ [] h = refl
is_clean→≡ (e ∷ es) h = cc

close_error-eq-none :
    (contract_symbol : String) (quantity : ℤ) (held : Decimal)
    → close_error contract_symbol quantity held ≡ none
    → (pos 0 <ℤ held) × (quantity ≤ℤ whole held)
unfolding close_error
close_error-eq-none contract_symbol quantity held h = ground arith

pub ok_inj : {A : Type 0} {a b : A} → ok a ≡ ok b → a ≡ b
ok_inj h = cc

-- The broker reports a position of at least the quantity that the close sells.
abbrev pub IsCovered : ValidatedTrade → BrokerAdapter → Session → Type 0
IsCovered validated adapter s =
    (ps : List Position) × (adapter.get_positions s.orders ≡ ok ps)
    × (validated.quantity
        ≤ℤ whole (held_quantity (find (λ p. p.symbol == validated.contract_symbol) ps)))

close_check_sound :
    (validated : ValidatedTrade) (adapter : BrokerAdapter) (s : Session)
    → validated.action ≡ sell_to_close
    → (close_check validated adapter s).0 ≡ ok none
    → IsCovered validated adapter s
unfolding close_check validate_close_position
close_check_sound validated adapter s sells h =
    from_answer (adapter.get_positions s.orders) refl (rw (ap is_sell_to_close sells) at h)
  where
    symbol : String
    symbol = validated.contract_symbol

    from_answer :
        (r : Result (List Position))
        → adapter.get_positions s.orders ≡ r
        → ((lift r >>= λ ps. pure (
              close_error symbol validated.quantity
                (held_quantity (find (λ p. p.symbol == symbol) ps))))
            s).0
          ≡ ok none
        → IsCovered validated adapter s
    from_answer (ok ps) e k =
        (ps, e, (close_error-eq-none symbol validated.quantity _ (ok_inj k)).1)
    from_answer (err x) e k = cc

-- The order of the trade went out: it has no validation errors, and a close is covered.
pub record IsPlaced (user : User) (validated : ValidatedTrade) (adapter : BrokerAdapter)
    (s s' : Session) : Type 0 where
  pub one_order : s'.orders ≡ s.orders ++ order_of user validated ∷ []
  pub valid : validated.validation_errors ≡ []
  pub covered : validated.action ≡ sell_to_close → IsCovered validated adapter s

-- An execution sends no order, or exactly the one of its trade, in the user's effective mode; then
-- the trade has no validation errors, and a close sells no more than the broker says is held.
pub execute_trade_orders :
    (user : User) (alert_id : ℕ) (validated : ValidatedTrade) (adapter : BrokerAdapter)
    (s : Session)
    → s.rivals ≡ []
    → let s' = (execute_trade user alert_id validated adapter s).1 in
      (s'.orders ≡ s.orders) ⊎ IsPlaced user validated adapter s s'
execute_trade_orders user alert_id validated adapter s h =
    from (execute_trade-Executed user alert_id validated adapter s h)
  where
    from :
        {p : Result TradeExecution × Session}
        → Executed user alert_id validated adapter s p
        → (p.1.orders ≡ s.orders) ⊎ IsPlaced user validated adapter s p.1
    from (rejected row s' e _ _ _ r) = inl (ap (λ q. q.1.orders) e ∙ r.orders_are)
    from (refused _ row s' e _ _ _ _ r) = inl (ap (λ q. q.1.orders) e ∙ r.orders_are)
    from (placed row s' e clean checked _ r) = inr (record {
      one_order = ap (λ q. q.1.orders) e ∙ r.orders_are;
      valid = is_clean→≡ _ clean;
      covered = λ sells. close_check_sound validated adapter s sells checked;
    })
    from (not_checked x e _) = inl (ap (λ q. q.1.orders) e)
    from (unanswered x e clean checked) = inr (record {
      one_order = ap (λ q. q.1.orders) e;
      valid = is_clean→≡ _ clean;
      covered = λ sells. close_check_sound validated adapter s sells checked;
    })

-- An execution that raises leaves the database and what is committed of it as they were.
pub execute_trade_raises :
    (user : User) (alert_id : ℕ) (validated : ValidatedTrade) (adapter : BrokerAdapter)
    (s : Session) (x : Error)
    → s.rivals ≡ []
    → (execute_trade user alert_id validated adapter s).0 ≡ err x
    → ((execute_trade user alert_id validated adapter s).1.db ≡ s.db)
      × ((execute_trade user alert_id validated adapter s).1.saved ≡ s.saved)
execute_trade_raises user alert_id validated adapter s x h raised =
    from (execute_trade-Executed user alert_id validated adapter s h) raised
  where
    from :
        {p : Result TradeExecution × Session}
        → Executed user alert_id validated adapter s p
        → p.0 ≡ err x
        → (p.1.db ≡ s.db) × (p.1.saved ≡ s.saved)
    from (rejected row s' e _ _ _ r) f = cc (ap (λ q. q.0) e)
    from (refused _ row s' e _ _ _ _ r) f = cc (ap (λ q. q.0) e)
    from (placed row s' e clean checked _ r) f = cc (ap (λ q. q.0) e)
    from (not_checked y e _) f = (ap (λ q. q.1.db) e, ap (λ q. q.1.saved) e)
    from (unanswered y e clean checked) f = (ap (λ q. q.1.db) e, ap (λ q. q.1.saved) e)

-- What a returned row means for the session.
pub record IsFinished (user : User) (alert_id : ℕ) (s : Session) (row : TradeExecution)
    (s' : Session) : Type 0 where
  pub committed : s'.saved ≡ s'.db
  pub stored : In row s'.db.executions
  pub kept : (r : TradeExecution) → In r s.db.executions → In r s'.db.executions
  pub in_mode : row.mode ≡ effective_mode user
  pub marked :
      ((row.status ≡ validation_failed) × (s'.db.alerts ≡ s.db.alerts))
      ⊎ ((reason : Option Reason) × (s'.db.alerts ≡ mark_alert alert_id reason s.db.alerts))

finished :
    (user : User) (alert_id : ℕ) (s t : Session) (row : TradeExecution) (s' : Session)
    (alerts : List InboundAlert)
    → ((r : TradeExecution) → In r s.db.executions → In r t.db.executions)
    → IsRecorded t alerts row s'
    → row.mode ≡ effective_mode user
    → ((row.status ≡ validation_failed) × (alerts ≡ s.db.alerts))
      ⊎ ((reason : Option Reason) × (alerts ≡ mark_alert alert_id reason s.db.alerts))
    → IsFinished user alert_id s row s'
finished user alert_id s t row s' alerts older r in_mode m = record {
  committed = r.committed;
  stored = r.stored;
  kept = λ q i. r.kept q (older q i);
  in_mode = in_mode;
  marked = elim m [
    | inl (failed, same) ↦ inl (failed, r.alerts_are ∙ same)
    | inr (reason, same) ↦ inr (reason, r.alerts_are ∙ same)
  ];
}

-- An execution that returns a row has stored and committed it, with the older rows kept, in the
-- effective mode. The alerts are untouched if the trade failed validation; otherwise the alert is
-- marked as processed, with the reason where a close was refused.
pub execute_trade-IsFinished :
    (user : User) (alert_id : ℕ) (validated : ValidatedTrade) (adapter : BrokerAdapter)
    (s : Session) (row : TradeExecution) (s' : Session)
    → s.rivals ≡ []
    → execute_trade user alert_id validated adapter s ≡ (ok row, s')
    → IsFinished user alert_id s row s'
execute_trade-IsFinished user alert_id validated adapter s row s' h returned =
    from (execute_trade-Executed user alert_id validated adapter s h) returned
  where
    move :
        {p : Result TradeExecution × Session} (row' : TradeExecution) (s'' : Session)
        → p ≡ (ok row', s'')
        → p ≡ (ok row, s')
        → IsFinished user alert_id s row' s''
        → IsFinished user alert_id s row s'
    move row' s'' e f done =
        let same_row : row' ≡ row = ok_inj (ap (λ q. q.0) (sym e ∙ f)) in
        let same_session : s'' ≡ s' = ap (λ q. q.1) (sym e ∙ f) in
        subst₂ (IsFinished user alert_id s) same_row same_session done

    from :
        {p : Result TradeExecution × Session}
        → Executed user alert_id validated adapter s p
        → p ≡ (ok row, s')
        → IsFinished user alert_id s row s'
    from (rejected row' s'' e _ failed in_mode r) f =
        move row' s'' e f
          (finished user alert_id s s row' s'' _ (λ q i. i) r in_mode (inl (failed, refl)))
    from (refused reason row' s'' e _ _ _ in_mode r) f =
        move row' s'' e f
          (finished user alert_id s s row' s'' _ (λ q i. i) r in_mode (inr (some reason, refl)))
    from (placed row' s'' e _ _ in_mode r) f = move row' s'' e f (
        finished user alert_id s (sent user validated s) row' s'' _ (λ q i. i) r in_mode
          (inr (none, refl)))
    from (not_checked y e _) f = cc (ap (λ q. q.0) (sym e ∙ f))
    from (unanswered y e _ _) f = cc (ap (λ q. q.0) (sym e ∙ f))
