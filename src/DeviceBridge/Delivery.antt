-- ===== src/DeviceBridge/Delivery.antt =====
-- An order that a device acknowledged is not sent again.
use mathlib.Core.Path.{subst}
use trade_receiver.Prelude.{
  ℕ, ◌-◌, ◌≤◌, String, Bool, true, false, not, List, [], ◌∷◌, ◌++◌, ◌≡◌, ◌≢◌, refl, sym, ap, ◌∙◌,
  inl, inr, arith, ◌==◌, ltb, any, filter, update, Bool-cases, eq_iff, eq_refl, if◌then◌else◌,
}
use trade_receiver.Prelude.Text.{or_text}
use trade_receiver.DeviceBridge.{
  Ack, acked, LiveDeviceConnection, Delivered, Registry, delivered_order_ttl, ack_ok, put,
  has_order, prune_delivered_orders, was_order_delivered, mark_order_delivered,
}
use trade_receiver.DeviceBridge.Push.{already_delivered, push_unless, start_push, finish_push}

module _ (same fresh : Delivered → Bool) (x : Delivered) (hs : same x ≡ true)
    (hf : fresh x ≡ true) where
  update-kept :
      (xs : List Delivered)
      → any same xs ≡ true
      → any same (filter fresh (update same (λ _. x) xs)) ≡ true
  update-kept [] h = cc
  update-kept (y ∷ ys) h = elim (Bool-cases (same y)) [
    | inl e ↦ rw (e, hf, hs) refl
    | inr e ↦ elim (Bool-cases (fresh y)) [
      | inl f ↦ rw (e, f, e) (update-kept ys (rw e at h))
      | inr f ↦ rw (e, f) (update-kept ys (rw e at h))
    ]
  ]

  append-kept : (xs : List Delivered) → any same (filter fresh (xs ++ x ∷ [])) ≡ true
  append-kept [] = rw (hf, hs) refl
  append-kept (y ∷ ys) = elim (Bool-cases (fresh y)) [
    | inl f ↦ elim (Bool-cases (same y)) [
      | inl e ↦ rw (f, e) refl
      | inr e ↦ rw (f, e) (append-kept ys)
    ]
    | inr f ↦ rw f (append-kept ys)
  ]

  put-kept : (xs : List Delivered) → any same (filter fresh (put same x xs)) ≡ true
  put-kept xs = elim (Bool-cases (any same xs)) [
    | inl e ↦ rw e (update-kept xs e)
    | inr e ↦ rw e (append-kept xs)
  ]

mark_order_delivered-delivered :
    (order_id : String) (now later : ℕ) (r : Registry)
    → later - now ≤ 3600000
    → any
        (has_order order_id)
        (prune_delivered_orders later (mark_order_delivered order_id now r)).delivered_orders
      ≡ true
unfolding prune_delivered_orders mark_order_delivered
mark_order_delivered-delivered order_id now later r h =
    put-kept (has_order order_id) (λ d. not (ltb delivered_order_ttl (later - d.at)))
      (record { order_id = order_id; at = now }) (eq_refl order_id) (ground arith)
      r.delivered_orders

nonblank : (t : String) → t ≢ "" → (t == "") ≡ false
nonblank t h = ground (arith, eq_iff t "")

finish_push-marks :
    (order_id : String) (c : LiveDeviceConnection) (a : Ack) (now : ℕ) (r : Registry)
    → ack_ok a ≡ true
    → or_text a.id order_id ≡ order_id
    → (order_id == "") ≡ false
    → (finish_push c order_id (acked a) now r).1 ≡ mark_order_delivered order_id now r
unfolding finish_push
finish_push-marks order_id c a now r accepted same named =
    ap (mark_with a now r) same ∙ rw (accepted, named) refl
  where
    mark_with : Ack → ℕ → Registry → String → Registry
    mark_with a now r t =
        if ack_ok a then (if t == "" then r else mark_order_delivered t now r) else r

start_push-known :
    (user_id order_id : String) (ticket : ℕ) (sent : Bool) (later : ℕ) (r : Registry)
    → (order_id == "") ≡ false
    → any (has_order order_id) (prune_delivered_orders later r).delivered_orders ≡ true
    → (start_push user_id order_id ticket sent later r).0 ≡ already_delivered
unfolding start_push push_unless was_order_delivered
start_push-known user_id order_id ticket sent later r named known = rw named (
    ap (λ b. (push_unless user_id order_id ticket sent (b, prune_delivered_orders later r)).0)
      known)

own_id : (id order_id : String) → id ≡ order_id → or_text id order_id ≡ order_id
own_id id order_id h = ground arith

-- Once a device has acknowledged an order under its id, a push of the same id within the hour is
-- answered as delivered and goes to no device, whichever user and socket it is for.
pub finish_push-start_push :
    (user_id order_id : String) (c : LiveDeviceConnection) (a : Ack) (ticket : ℕ) (sent : Bool)
    (now later : ℕ) (r : Registry)
    → ack_ok a ≡ true
    → a.id ≡ order_id
    → order_id ≢ ""
    → later - now ≤ 3600000
    → (start_push user_id order_id ticket sent later (finish_push c order_id (acked a) now r).1).0
      ≡ already_delivered
finish_push-start_push user_id order_id c a ticket sent now later r accepted same named recent =
    let not_blank = nonblank order_id named in
    subst (λ q. (start_push user_id order_id ticket sent later q).0 ≡ already_delivered)
      (sym (finish_push-marks order_id c a now r accepted (own_id a.id order_id same) not_blank))
      (start_push-known user_id order_id ticket sent later (mark_order_delivered order_id now r)
        not_blank (mark_order_delivered-delivered order_id now later r recent))
