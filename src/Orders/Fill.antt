-- ===== src/Orders/Fill.antt =====
-- `_extract_fill_price` and `resolve_fill`.
use trade_receiver.Prelude.{
  String, Bool, true, false, Option, none, some, List, [], ◌∷◌, ◌==◌, ◌||◌, if◌then◌else◌,
}
use trade_receiver.Prelude.Int.{pos, Decimal, eqb_ℤ}
use trade_receiver.Prelude.Text.{upper}
use trade_receiver.Tables.{ExecutionStatus, filled, submitted, failed}
use trade_receiver.Session.{M, ◌>>=◌, pure, lift}
use trade_receiver.Broker.{BrokerAdapter, OrderDict, OrderStatus}

-- `float(fallback) if fallback else None`: a zero amount counts as missing
unfoldable pub truthy : Option Decimal → Option Decimal
truthy none = none
truthy (some d) = if eqb_ℤ d (pos 0) then none else some d

abbrev pub or_else {ℓ} : {A : Type ℓ} → Option A → Option A → Option A
or_else none b = b
or_else (some a) b = some a

unfoldable pub first_leg : List (Option Decimal) → Option Decimal
first_leg [] = none
first_leg (none ∷ legs) = first_leg legs
first_leg (some p ∷ legs) = some p

unfoldable pub first_price : List (List (Option Decimal)) → Option Decimal
unfolding first_leg
first_price [] = none
first_price (legs ∷ activities) = or_else (first_leg legs) (first_price activities)

-- `order.get("avg_fill_price") or order.get("average_price")`
unfoldable pub average : OrderDict → Option Decimal
unfolding truthy
average d = or_else (truthy d.avg_fill_price) d.average_price

unfoldable pub extract_fill_price : OrderDict → Option Decimal → Option Decimal
unfolding first_price average
extract_fill_price d fallback =
    or_else (first_price d.leg_prices) (or_else d.price (or_else (average d) (truthy fallback)))

abbrev pub is_none {ℓ} : {A : Type ℓ} → Option A → Bool
is_none none = true
is_none (some a) = false

abbrev pub is_nil {ℓ} : {A : Type ℓ} → List A → Bool
is_nil [] = true
is_nil (x ∷ xs) = false

-- `not d`
unfoldable pub is_empty : OrderDict → Bool
is_empty d =
    if d.other_keys
    then false
    else if is_none d.status
    then if is_nil d.leg_prices
      then if is_none d.price
        then if is_none d.avg_fill_price then is_none d.average_price else false
        else false
      else false
    else false

-- `order or status_data`
unfoldable pub payload_of : OrderStatus → OrderDict
unfolding is_empty
payload_of st = elim st.order [ none ↦ st.top | some o ↦ if is_empty o then st.top else o ]

abbrev pub text_or : Option String → String
text_or none = ""
text_or (some t) = t

unfoldable pub status_of : String → ExecutionStatus
status_of state =
    if state == "FILLED" || state == "EXECUTED"
    then filled
    else if state == "CANCELED"
        || (state == "CANCELLED" || (state == "REJECTED" || state == "EXPIRED"))
    then failed
    else submitted

unfoldable pub read_status : Option Decimal → Option OrderStatus → ExecutionStatus × Option Decimal
unfolding payload_of status_of extract_fill_price truthy
read_status fallback none = (submitted, truthy fallback)
read_status fallback (some st) =
    let payload = payload_of st in
    (status_of (upper (text_or payload.status)), extract_fill_price payload fallback)

unfoldable pub order_status : BrokerAdapter → String → M (Option OrderStatus)
order_status adapter order_id s = lift (adapter.get_order_status s.orders order_id) s

-- every adapter of the program has `get_order_status`
unfoldable pub resolve_fill :
    BrokerAdapter → Option String → Option Decimal → M (ExecutionStatus × Option Decimal)
unfolding order_status read_status
resolve_fill adapter none fallback = pure (submitted, truthy fallback)
resolve_fill adapter (some order_id) fallback =
    if order_id == ""
    then pure (submitted, truthy fallback)
    else (do st ← order_status adapter order_id; pure (read_status fallback st))
