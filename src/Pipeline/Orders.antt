-- ===== src/Pipeline/Orders.antt =====
-- When the pipeline may send an order.
use trade_receiver.Prelude.{
  ℕ, String, true, false, Option, none, some, List, ◌≡◌, refl, ap, ◌∙◌, ◌⊎◌, inl, inr, Bool-cases,
}
use trade_receiver.Trade.{TradeIntent}
use trade_receiver.Tables.{Reason, User, InboundAlert}
use trade_receiver.Session.{Session, Order, Result, ok, err, ◌>>=◌, ◌>>◌, lift, commit, clash, http}
use trade_receiver.Session.Keeps.{Keeps, Keeps-pure, Keeps-if, Keeps-bind}
use trade_receiver.Entitlements.{can_process_trades, require_active_subscription}
use trade_receiver.MarketHours.{is_rth}
use trade_receiver.Decision.{is_skip}
use trade_receiver.Execution.{mark_processed}
use trade_receiver.Pipeline.{
  World, find_alert, add_alert, skip_alert, refuse_inactive, trade_read, process_alert, process_new,
  process_unless, process_inbound_alert,
}
use trade_receiver.Pipeline.Steps.{read_intent-Reads}

-- the orders that have gone out are `orders`
abbrev HasSent : List Order → Session → Type 0
HasSent orders s = s.orders ≡ orders

module _ (orders : List Order) where
  commit-quiet : Keeps (HasSent orders) commit
  unfolding commit
  commit-quiet = record {
    keeps =
        λ s p. elim (Bool-cases (clash s.rivals s.db.alerts)) [ inl b ↦ rw b p | inr b ↦ rw b p ];
  }

  mark_commit-quiet :
      {A : Type 0} (alert_id : ℕ) (reason : Option Reason) (r : Result A)
      → Keeps (HasSent orders) (mark_processed alert_id reason >> (commit >> lift r))
  unfolding mark_processed
  mark_commit-quiet alert_id reason r =
      Keeps-bind (HasSent orders) (mark_processed alert_id reason) _ (record { keeps = λ s p. p })
        (λ _.
          Keeps-bind (HasSent orders) commit _ commit-quiet (λ _. Keeps-pure (HasSent orders) r))

  skip_alert-quiet :
      (alert_id : ℕ) (reason : Reason) → Keeps (HasSent orders) (skip_alert alert_id reason)
  unfolding skip_alert
  skip_alert-quiet alert_id reason = mark_commit-quiet alert_id (some reason) (ok _)

  refuse_inactive-quiet :
      (now : ℕ) (user : User) (alert_id : ℕ)
      → Keeps (HasSent orders) (refuse_inactive now user alert_id)
  unfolding refuse_inactive
  refuse_inactive-quiet now user alert_id =
      mark_commit-quiet alert_id _ (err (http 402 (require_active_subscription now user).1))

  module _ {Body : Type 0} (world : World Body) (user : User) where
    trade_read-quiet :
        (alert_id : ℕ) (o : Option TradeIntent)
        → is_rth world.clock ≡ false
        → Keeps (HasSent orders) (trade_read world user alert_id o)
    unfolding trade_read
    trade_read-quiet alert_id none closed = skip_alert-quiet alert_id _
    trade_read-quiet alert_id (some intent) closed =
        Keeps-if (HasSent orders) (is_skip intent.action) _ _ (skip_alert-quiet alert_id _)
          (rw closed (skip_alert-quiet alert_id _))

    closed-quiet :
        (body : Body) (t : String) (alert_id : ℕ)
        → is_rth world.clock ≡ false
        → Keeps (HasSent orders) (process_alert world user body t alert_id)
    unfolding process_alert
    closed-quiet body t alert_id closed =
        Keeps-if (HasSent orders) (can_process_trades world.now user) _ _
          (Keeps-bind (HasSent orders) _ _
            (record {
              keeps =
                  λ s p. ap (λ q. q.orders) ((read_intent-Reads world user body t).unchanged s) ∙ p;
            })
            (λ o. trade_read-quiet alert_id o closed))
          (refuse_inactive-quiet world.now user alert_id)

    inactive-quiet :
        (body : Body) (t : String) (alert_id : ℕ)
        → can_process_trades world.now user ≡ false
        → Keeps (HasSent orders) (process_alert world user body t alert_id)
    unfolding process_alert
    inactive-quiet body t alert_id inactive =
        rw inactive (refuse_inactive-quiet world.now user alert_id)

    process_new-quiet :
        (body : Body) (webhook_id : Option String) (t : String)
        → ((alert_id : ℕ) → Keeps (HasSent orders) (process_alert world user body t alert_id))
        → Keeps (HasSent orders) (process_new world user body webhook_id t)
    unfolding process_new add_alert
    process_new-quiet body webhook_id t h =
        Keeps-bind (HasSent orders)
          (add_alert user webhook_id (world.resolve_idempotency_key user body webhook_id) t
            (can_process_trades world.now user))
          _ (record { keeps = λ s p. p })
          (λ id. Keeps-bind (HasSent orders) commit _ commit-quiet (λ _. h id))

-- Processing an alert sends no order, unless its key is new, the user's plan lets them trade, and the
-- market is open.
pub process_inbound_alert_orders :
    {Body : Type 0} (world : World Body) (user : User) (body : Body) (webhook_id : Option String)
    (s : Session)
    → ((process_inbound_alert world user body webhook_id s).1.orders ≡ s.orders)
      ⊎ ((find_alert user.id (world.resolve_idempotency_key user body webhook_id) s.db ≡ none)
          × (can_process_trades world.now user ≡ true)
          × (is_rth world.clock ≡ true))
unfolding process_inbound_alert process_unless
process_inbound_alert_orders world user body webhook_id s = from (world.normalized_text body)
  where
    found : Option InboundAlert
    found = find_alert user.id (world.resolve_idempotency_key user body webhook_id) s.db

    from_unless :
        (t : String) (o : Option InboundAlert)
        → found ≡ o
        → ((process_unless world user body webhook_id t o s).1.orders ≡ s.orders)
          ⊎ ((found ≡ none)
              × (can_process_trades world.now user ≡ true)
              × (is_rth world.clock ≡ true))
    from_unless t (some a) e = inl refl
    from_unless t none e = elim (Bool-cases (can_process_trades world.now user)) [
      | inr inactive ↦ inl (
          (process_new-quiet s.orders world user body webhook_id t
              (λ id. inactive-quiet s.orders world user body t id inactive)).keeps
            s refl)
      | inl active ↦ elim (Bool-cases (is_rth world.clock)) [
        | inr closed ↦ inl (
            (process_new-quiet s.orders world user body webhook_id t
                (λ id. closed-quiet s.orders world user body t id closed)).keeps
              s refl)
        | inl in_hours ↦ inr (e, active, in_hours)
      ]
    ]

    from :
        (r : Result String)
        → (((lift r >>= λ t. process_unless world user body webhook_id t found) s).1.orders
            ≡ s.orders)
          ⊎ ((found ≡ none)
              × (can_process_trades world.now user ≡ true)
              × (is_rth world.clock ≡ true))
    from (ok t) = from_unless t found refl
    from (err x) = inl refl
