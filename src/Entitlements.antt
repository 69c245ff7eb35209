-- ===== src/Entitlements.antt =====
-- app/services/entitlements.py. Times are UTC seconds; a naive `ends_at` is read as UTC.
pub mod Laws
use trade_receiver.Prelude.{
  ℕ, String, Bool, true, false, not, Option, none, some, ◌&&◌, ◌||◌, ◌==◌, ltb, if◌then◌else◌,
}
use trade_receiver.Tables.{Subscription, User, Reason, text}

unfoldable pub in_cancelled_grace : ℕ → Subscription → Bool
in_cancelled_grace now sub = elim sub.ends_at [ none ↦ false | some ends ↦ ltb now ends ]

abbrev pub active_status : String → Bool
active_status status = status == "active" || status == "trialing"

abbrev pub cancelled_status : String → Bool
cancelled_status status =
    status == "cancelled" || status == "canceled" || status == "scheduled_cancel"

unfoldable pub subscription_active : ℕ → Option Subscription → Bool
unfolding in_cancelled_grace
subscription_active now none = false
subscription_active now (some sub) =
    if active_status sub.status
    then true
    else if cancelled_status sub.status && in_cancelled_grace now sub
    then true
    else false

unfoldable pub can_process_trades : ℕ → User → Bool
unfolding subscription_active
can_process_trades now user = subscription_active now user.subscription

unfoldable pub require_active_subscription : ℕ → User → Bool × Reason
unfolding can_process_trades
require_active_subscription now user =
    if not (can_process_trades now user)
    then (false, text "Active subscription required")
    else (true, text "")

unfoldable pub revoke_device_access : User → User
revoke_device_access user = record user { api_key_hash = none }

-- A missing row is created, and every column that the call names is written. The row that was created
-- is not in `user.subscription` before the commit, so that the test of the plan finds none.
unfoldable pub grant_subscription : ℕ → User → String → String → Option ℕ → Option ℕ → Bool → User
unfolding can_process_trades
grant_subscription now user status plan_name renews_at ends_at revoke_device =
    let sub : Subscription = record {
      status = status;
      plan_name = plan_name;
      renews_at = renews_at;
      ends_at = ends_at;
    } in
    let granted : User = record user { subscription = some sub } in
    let seen : User = elim user.subscription [ none ↦ user | some old ↦ granted ] in
    if revoke_device || not (can_process_trades now seen)
    then record granted { api_key_hash = none }
    else granted
