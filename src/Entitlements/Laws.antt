-- ===== src/Entitlements/Laws.antt =====
-- When a user may trade, and what a grant leaves of the device key.
use trade_receiver.Prelude.{
  ℕ, ◌<◌, String, Bool, true, false, Option, none, some, ◌≡◌, ◌≢◌, refl, ◌↔◌, ◌⊎◌, arith, eq_iff,
  inl, inr, Bool-cases,
}
use trade_receiver.Tables.{Subscription, User}
use trade_receiver.Entitlements.{
  in_cancelled_grace, active_status, cancelled_status, subscription_active, can_process_trades,
  grant_subscription,
}

abbrev pub IsActive : Subscription → Type 0
IsActive sub = (sub.status ≡ "active") ⊎ (sub.status ≡ "trialing")

abbrev pub IsCancelled : Subscription → Type 0
IsCancelled sub =
    (sub.status ≡ "cancelled") ⊎ (sub.status ≡ "canceled") ⊎ (sub.status ≡ "scheduled_cancel")

abbrev pub GivesAccess : ℕ → Subscription → Type 0
GivesAccess now sub =
    IsActive sub ⊎ (IsCancelled sub × ((ends : ℕ) × (sub.ends_at ≡ some ends) × (now < ends)))

-- The contract: an active plan, or a cancelled one whose end lies ahead.
abbrev pub IsEntitled : ℕ → User → Type 0
IsEntitled now user = (sub : Subscription) × (user.subscription ≡ some sub) × GivesAccess now sub

active_status_iff : (s : String) → (active_status s ≡ true) ↔ ((s ≡ "active") ⊎ (s ≡ "trialing"))
active_status_iff s = ground (arith, eq_iff s "active", eq_iff s "trialing")

cancelled_status_iff :
    (s : String)
    → (cancelled_status s ≡ true)
      ↔ ((s ≡ "cancelled") ⊎ (s ≡ "canceled") ⊎ (s ≡ "scheduled_cancel"))
cancelled_status_iff s =
    ground (arith, eq_iff s "cancelled", eq_iff s "canceled", eq_iff s "scheduled_cancel")

in_cancelled_grace_iff :
    (now : ℕ) (sub : Subscription)
    → (in_cancelled_grace now sub ≡ true) ↔ ((ends : ℕ) × (sub.ends_at ≡ some ends) × (now < ends))
unfolding in_cancelled_grace
in_cancelled_grace_iff now sub = ground arith

entitled_to :
    (now : ℕ) (o : Option Subscription)
    → subscription_active now o ≡ true
    → (sub : Subscription) × (o ≡ some sub) × GivesAccess now sub
unfolding subscription_active
entitled_to now none h = cc
entitled_to now (some sub) h = (
  sub,
  refl,
  ground (
    arith,
    active_status_iff sub.status,
    cancelled_status_iff sub.status,
    in_cancelled_grace_iff now sub,
  ),
)

entitled_of :
    (now : ℕ) (o : Option Subscription) (sub : Subscription)
    → o ≡ some sub
    → GivesAccess now sub
    → subscription_active now o ≡ true
unfolding subscription_active
entitled_of now o sub e h = rw e (
    ground (
      arith,
      active_status_iff sub.status,
      cancelled_status_iff sub.status,
      in_cancelled_grace_iff now sub,
    ))

-- A user can process trades exactly when the subscription is active or trialing, or is cancelled
-- and ends later than now.
pub can_process_trades_iff :
    (now : ℕ) (user : User) → (can_process_trades now user ≡ true) ↔ IsEntitled now user
unfolding can_process_trades
can_process_trades_iff now user =
    (entitled_to now user.subscription, λ (sub, e, h). entitled_of now user.subscription sub e h)

-- What a grant does to the device key. It is gone: the user had no subscription, or revocation was
-- asked for, or the plan gives no access. Or it is the user's: the user had a subscription, no
-- revocation was asked for, and the plan gives access.
abbrev pub KeyAfter : ℕ → User → User → Bool → Type 0
KeyAfter now user granted revoke_device =
    ((granted.api_key_hash ≡ none)
      × ((user.subscription ≡ none)
          ⊎ (revoke_device ≡ true)
          ⊎ (can_process_trades now granted ≡ false)))
    ⊎ ((granted.api_key_hash ≡ user.api_key_hash)
        × (user.subscription ≢ none)
        × (revoke_device ≡ false)
        × (can_process_trades now granted ≡ true))

-- a user without a subscription may not trade
unsubscribed :
    (now : ℕ) (user : User)
    → user.subscription ≡ none
    → subscription_active now user.subscription ≡ false
unfolding subscription_active
unsubscribed now user e = rw e refl

module _ (now : ℕ) (user : User) (status plan_name : String) (renews_at ends_at : Option ℕ)
    (revoke_device : Bool) where
  abbrev after_grant : User
  after_grant = grant_subscription now user status plan_name renews_at ends_at revoke_device

  abbrev written : Subscription
  written = record {
    status = status;
    plan_name = plan_name;
    renews_at = renews_at;
    ends_at = ends_at;
  }

  -- the key after a grant, by the subscription that the user had
  granted-KeyAfter :
      (o : Option Subscription)
      → user.subscription ≡ o
      → KeyAfter now user after_grant revoke_device
  unfolding grant_subscription can_process_trades
  granted-KeyAfter none e =
      inl (rw (e, grant_subscription) (ground (arith, unsubscribed now user e)), inl e)
  granted-KeyAfter (some old) e = elim (Bool-cases revoke_device) [
    | inl revoked ↦ rw (e, grant_subscription, revoked) (inl (refl, inr (inl refl)))
    | inr kept ↦ elim (Bool-cases (subscription_active now (some written))) [
      | inl active ↦ rw (e, grant_subscription, kept, active) (inr (refl, (λ h. cc), refl, active))
      | inr shut ↦ rw (e, grant_subscription, kept, shut) (inl (refl, inr (inr shut)))
    ]
  ]

-- After a grant the plan columns are those of the call. The device key is gone if the user had no
-- subscription before, if revocation was asked for or if the new plan does not let the user trade, and
-- is otherwise untouched.
pub grant_subscription_lem :
    (now : ℕ) (user : User) (status plan_name : String) (renews_at ends_at : Option ℕ)
    (revoke_device : Bool)
    → let granted = grant_subscription now user status plan_name renews_at ends_at revoke_device in
      ((sub : Subscription) × (granted.subscription ≡ some sub)
        × (sub.status ≡ status)
        × (sub.plan_name ≡ plan_name)
        × (sub.ends_at ≡ ends_at)
        × (sub.renews_at ≡ renews_at))
      × KeyAfter now user granted revoke_device
unfolding grant_subscription
grant_subscription_lem now user status plan_name renews_at ends_at revoke_device = (
  (_, ground arith, refl, refl, refl, refl),
  granted-KeyAfter now user status plan_name renews_at ends_at revoke_device user.subscription refl,
)
