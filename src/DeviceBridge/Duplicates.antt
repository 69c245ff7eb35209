-- ===== src/DeviceBridge/Duplicates.antt =====
-- When the registry answers a push without sending it.
use trade_receiver.Prelude.{
  ℕ, ◌-◌, ◌≤◌, String, Bool, true, false, not, Option, none, some, List, ◌≡◌, ◌≢◌, ◌↔◌, refl, ◌==◌,
  ltb, filter, In, In-any, In-filter, filter-In, find-any, find-In, find_sound, arith, inl, inr,
  Bool-cases, eq_iff,
}
use trade_receiver.DeviceBridge.{
  LiveDeviceConnection, Delivered, Registry, delivered_order_ttl, primary_connection, has_order,
  prune_delivered_orders, was_order_delivered,
}
use trade_receiver.DeviceBridge.Push.{already_delivered, send_order, push_unless, start_push}

-- The registry has recorded the order as delivered within the last hour.
abbrev pub IsDuplicate : String → ℕ → List Delivered → Type 0
IsDuplicate order_id now delivered =
    (d : Delivered) × In d delivered × (d.order_id ≡ order_id) × (now - d.at ≤ 3600000)

-- the records that are kept are those of the last hour
abbrev fresh : ℕ → Delivered → Bool
fresh now d = not (ltb delivered_order_ttl (now - d.at))

fresh_iff : (now : ℕ) (d : Delivered) → (fresh now d ≡ true) ↔ (now - d.at ≤ 3600000)
fresh_iff now d = ground arith

was_order_delivered_iff :
    (order_id : String) (now : ℕ) (r : Registry)
    → ((was_order_delivered order_id now r).0 ≡ true) ↔ IsDuplicate order_id now r.delivered_orders
unfolding was_order_delivered prune_delivered_orders
was_order_delivered_iff order_id now r = (
  λ h.
      let kept = filter (fresh now) r.delivered_orders in
      let (d, found) = find-any (has_order order_id) kept h in
      let (listed, young) =
        In-filter (fresh now) r.delivered_orders d (find-In (has_order order_id) kept d found) in
      let named = find_sound (has_order order_id) kept d found in
      (d, listed, (eq_iff d.order_id order_id).0 named, (fresh_iff now d).0 young),
  λ (d, listed, same, young).
      In-any (has_order order_id) (filter (fresh now) r.delivered_orders) d
        (filter-In (fresh now) r.delivered_orders d listed ((fresh_iff now d).1 young))
        ((eq_iff d.order_id order_id).1 same),
)

send_order-sends :
    (user_id order_id : String) (ticket : ℕ) (sent : Bool) (o : Option LiveDeviceConnection)
    (r : Registry)
    → (send_order user_id order_id ticket sent o r).0 ≢ already_delivered
unfolding send_order
send_order-sends user_id order_id ticket sent none r e = cc
send_order-sends user_id order_id ticket false (some c) r e = cc
send_order-sends user_id order_id ticket true (some c) r e = cc

push_unless_iff :
    (user_id order_id : String) (ticket : ℕ) (sent delivered : Bool) (r : Registry)
    → ((push_unless user_id order_id ticket sent (delivered, r)).0 ≡ already_delivered)
      ↔ (delivered ≡ true)
unfolding push_unless
push_unless_iff user_id order_id ticket sent true r = (λ h. refl, λ h. refl)
push_unless_iff user_id order_id ticket sent false r = (
  λ h. absurd (send_order-sends user_id order_id ticket sent (primary_connection user_id r) r h),
  λ h. cc,
)

-- A push is answered as delivered without being sent exactly if its order has an id that the registry
-- recorded as delivered within the last hour.
pub start_push-already_delivered_iff :
    (user_id order_id : String) (ticket : ℕ) (sent : Bool) (now : ℕ) (r : Registry)
    → ((start_push user_id order_id ticket sent now r).0 ≡ already_delivered)
      ↔ ((order_id ≢ "") × IsDuplicate order_id now r.delivered_orders)
unfolding start_push
start_push-already_delivered_iff user_id order_id ticket sent now r =
    elim (Bool-cases (order_id == "")) [
      | inl blank ↦
          rw (blank, start_push)
            (
              λ h.
                  let no : false ≡ true =
                    (push_unless_iff user_id order_id ticket sent false r).0 h in
                  cc,
              λ (named, _). absurd (named ((eq_iff order_id "").0 blank)),
            )
      | inr set ↦
          let answered =
            push_unless_iff user_id order_id ticket sent (was_order_delivered order_id now r).0
              (was_order_delivered order_id now r).1 in
          let known = was_order_delivered_iff order_id now r in
          rw (set, start_push)
            (
              λ h. (λ e. cc, known.0 (answered.0 h)),
              λ (_, duplicate). answered.1 (known.1 duplicate),
            )
    ]
