-- ===== src/NinjaTrader/Laws.antt =====
-- What a futures order sends, and when it may be reported as accepted.
use mathlib.Core.Path.{subst}
use mathlib.Core.List.{append_assoc, append-nil}
use trade_receiver.Prelude.{
  String, Bool, true, false, Option, none, some, List, [], ◌∷◌, ◌++◌, ◌≡◌, ◌≢◌, refl, sym, ◌∙◌, ◌⊎◌,
  inl, inr, arith, ◌==◌, ◌||◌, Bool-cases, eq_iff,
}
use trade_receiver.Trade.{ValidatedFuturesTrade, NinjaTraderOrderPayload, OrderResult}
use trade_receiver.Session.{
  Session, Order, bridge_order, forward_order, Result, ok, err, ◌>>=◌, lift,
}
use trade_receiver.NinjaTrader.{
  NinjaTraderAdapter, Transport, PushResult, build_order_payload, from_push, ask_bridge, online,
  execute_via_device_bridge, ask_forward, execute_via_forward_url, undelivered, forward_or_fail,
  after_push, execute_futures_order,
}

-- The orders that one futures order may send: at most one over the bridge, and after it at most one
-- to a forward URL that is configured.
pub data Delivery (adapter : NinjaTraderAdapter) (user_id : String) (body : NinjaTraderOrderPayload)
    : List Order → Type 0 where
  nothing : Delivery adapter user_id body []
  bridged : Delivery adapter user_id body (bridge_order user_id body ∷ [])
  forwarded :
      adapter.forward_url ≢ ""
      → Delivery adapter user_id body (forward_order adapter.forward_url body ∷ [])
  both :
      adapter.forward_url ≢ ""
      → Delivery adapter user_id body
          (bridge_order user_id body ∷ forward_order adapter.forward_url body ∷ [])

abbrev pub Accepted : Result OrderResult → Type 0
Accepted (ok r) = r.success ≡ true
Accepted (err e) = ⊥

-- With a device online, the bridge reports a success for the order and puts nothing out.
pub record IsSkipped (transport : Transport) (user_id : String) (body : NinjaTraderOrderPayload)
    (orders : List Order) : Type 0 where
  pub online : transport.has_online_devices orders user_id ≡ true
  pub kept_back : (transport.push_order orders user_id body).put_out ≡ false
  pub push : PushResult
  pub answered : (transport.push_order orders user_id body).answer ≡ ok (some push)
  pub reported : push.success ≡ true

-- From `s` an action sent a `Delivery`, left the database alone, and reports acceptance only if it
-- sent something or the bridge skipped the order with a report of success.
pub record IsDelivered (adapter : NinjaTraderAdapter) (transport : Transport) (user_id : String)
    (body : NinjaTraderOrderPayload) (s : Session) (p : Result OrderResult × Session) : Type 0 where
  pub sent : List Order
  pub delivery : Delivery adapter user_id body sent
  pub session_is : p.1 ≡ record s { orders = s.orders ++ sent }
  pub honest : Accepted p.0 → (sent ≢ []) ⊎ IsSkipped transport user_id body s.orders

-- What the forward URL adds after what was sent before.
record IsForwarded (adapter : NinjaTraderAdapter) (body : NinjaTraderOrderPayload) (s : Session)
    (p : Result OrderResult × Session) : Type 0 where
  kind :
      ((p.1 ≡ s) × (Accepted p.0 → ⊥))
      ⊎ ((adapter.forward_url ≢ "")
          × (p.1 ≡ record s { orders = s.orders ++ forward_order adapter.forward_url body ∷ [] }))

module _ (adapter : NinjaTraderAdapter) (transport : Transport) (user_id : String)
    (body : NinjaTraderOrderPayload) (dry_run : Bool) where
  undelivered-refused :
      (s : Session)
      → ((undelivered transport user_id body s).1 ≡ s)
        × (Accepted (undelivered transport user_id body s).0 → ⊥)
  unfolding undelivered online
  undelivered-refused s = elim (Bool-cases (transport.has_online_devices s.orders user_id)) [
    | inl on ↦ rw on (refl, λ h. cc)
    | inr off ↦ rw off (refl, λ h. cc)
  ]

  forward_or_fail-IsForwarded :
      (s : Session)
      → IsForwarded adapter body s (forward_or_fail adapter transport user_id body dry_run s)
  unfolding forward_or_fail execute_via_forward_url ask_forward
  forward_or_fail-IsForwarded s = elim (Bool-cases (adapter.forward_url == "")) [
    | inl blank ↦ record { kind = inl (rw blank (undelivered-refused s)) }
    | inr url ↦ record { kind = inr (grind (arith, eq_iff adapter.forward_url ""), rw url refl) }
  ]

  -- what the forward stage makes of a session that has sent nothing, and of one after the bridge
  from_start :
      (s : Session) (p : Result OrderResult × Session)
      → IsForwarded adapter body s p
      → IsDelivered adapter transport user_id body s p
  from_start s p f = elim f.kind [
    | inl (same, refused) ↦ record {
      sent = [];
      delivery = nothing;
      session_is = same ∙ (λ i. record s { orders = sym (append-nil s.orders) i });
      honest = λ h. absurd (refused h);
    }
    | inr (url, gone) ↦ record {
      sent = forward_order adapter.forward_url body ∷ [];
      delivery = forwarded url;
      session_is = gone;
      honest = λ h. inl (λ e. cc);
    }
  ]

  after_bridge : Session → Session
  after_bridge s = record s { orders = s.orders ++ bridge_order user_id body ∷ [] }

  from_bridge :
      (s : Session) (p : Result OrderResult × Session)
      → IsForwarded adapter body (after_bridge s) p
      → IsDelivered adapter transport user_id body s p
  unfolding after_bridge
  from_bridge s p f = elim f.kind [
    | inl (same, refused) ↦ record {
      sent = bridge_order user_id body ∷ [];
      delivery = bridged;
      session_is = same;
      honest = λ h. inl (λ e. cc);
    }
    | inr (url, gone) ↦ record {
      sent = bridge_order user_id body ∷ forward_order adapter.forward_url body ∷ [];
      delivery = both url;
      session_is = gone ∙ (λ i. record s {
        orders =
            append_assoc s.orders (bridge_order user_id body ∷ [])
              (forward_order adapter.forward_url body ∷ []) i;
      });
      honest = λ h. inl (λ e. cc);
    }
  ]

  stays_bridged :
      (s : Session) (r : Result OrderResult)
      → IsDelivered adapter transport user_id body s (r, after_bridge s)
  unfolding after_bridge
  stays_bridged s r = record {
    sent = bridge_order user_id body ∷ [];
    delivery = bridged;
    session_is = refl;
    honest = λ h. inl (λ e. cc);
  }

  after_push-bridged :
      (s : Session) (answer : Result (Option PushResult))
      → IsDelivered adapter transport user_id body s
          ((lift answer >>= after_push adapter transport user_id body dry_run) (after_bridge s))
  unfolding after_push
  after_push-bridged s (err e) = stays_bridged s (err e)
  after_push-bridged s (ok none) = from_bridge s _ (forward_or_fail-IsForwarded (after_bridge s))
  after_push-bridged s (ok (some push)) =
      elim (Bool-cases (push.success || adapter.forward_url == "")) [
        | inl taken ↦ rw taken (stays_bridged s (ok (from_push push)))
        | inr falls_back ↦
            rw falls_back (from_bridge s _ (forward_or_fail-IsForwarded (after_bridge s)))
      ]

  -- an answer that ends the order before anything went out
  stays_unsent :
      (s : Session) (r : Result OrderResult)
      → (Accepted r → IsSkipped transport user_id body s.orders)
      → IsDelivered adapter transport user_id body s (r, s)
  stays_unsent s r skipped = record {
    sent = [];
    delivery = nothing;
    session_is = λ i. record s { orders = sym (append-nil s.orders) i };
    honest = λ h. inr (skipped h);
  }

  none_pushed :
      (s : Session)
      → IsDelivered adapter transport user_id body s
          (after_push adapter transport user_id body dry_run none s)
  unfolding after_push
  none_pushed s = from_start s _ (forward_or_fail-IsForwarded s)

  after_push-unsent :
      (s : Session) (answer : Result (Option PushResult))
      → transport.has_online_devices s.orders user_id ≡ true
      → (transport.push_order s.orders user_id body).put_out ≡ false
      → (transport.push_order s.orders user_id body).answer ≡ answer
      → IsDelivered adapter transport user_id body s
          ((lift answer >>= after_push adapter transport user_id body dry_run) s)
  unfolding after_push
  after_push-unsent s (err e) on kept_back asked = stays_unsent s (err e) (λ h. absurd h)
  after_push-unsent s (ok none) on kept_back asked = none_pushed s
  after_push-unsent s (ok (some push)) on kept_back asked =
      elim (Bool-cases (push.success || adapter.forward_url == "")) [
        | inl taken ↦ rw taken (
            stays_unsent s (ok (from_push push)) (λ h. record {
              online = on;
              kept_back = kept_back;
              push = push;
              answered = asked;
              reported = h;
            }))
        | inr falls_back ↦ rw falls_back (from_start s _ (forward_or_fail-IsForwarded s))
      ]

  pushed :
      (s : Session)
      → transport.has_online_devices s.orders user_id ≡ true
      → (transport.push_order s.orders user_id body).put_out ≡ true
      → execute_via_device_bridge transport user_id body s
        ≡ ((transport.push_order s.orders user_id body).answer, after_bridge s)
  unfolding execute_via_device_bridge online ask_bridge after_bridge
  pushed s on out = rw (on, out) refl

  kept_back :
      (s : Session)
      → transport.has_online_devices s.orders user_id ≡ true
      → (transport.push_order s.orders user_id body).put_out ≡ false
      → execute_via_device_bridge transport user_id body s
        ≡ ((transport.push_order s.orders user_id body).answer, s)
  unfolding execute_via_device_bridge online ask_bridge
  kept_back s on back = rw (on, back) refl

  not_pushed :
      (s : Session)
      → transport.has_online_devices s.orders user_id ≡ false
      → execute_via_device_bridge transport user_id body s ≡ (ok none, s)
  unfolding execute_via_device_bridge online
  not_pushed s off = rw off refl

  deliver_from :
      (s : Session) (p : Result (Option PushResult) × Session)
      → IsDelivered adapter transport user_id body s
          ((lift p.0 >>= after_push adapter transport user_id body dry_run) p.1)
      → execute_via_device_bridge transport user_id body s ≡ p
      → IsDelivered adapter transport user_id body s (
          (execute_via_device_bridge transport user_id body
              >>= after_push adapter transport user_id body dry_run)
            s)
  deliver_from s p h e =
      subst
        (λ q.
          IsDelivered adapter transport user_id body s
            ((lift q.0 >>= after_push adapter transport user_id body dry_run) q.1))
        (sym e) h

  deliver :
      (s : Session)
      → IsDelivered adapter transport user_id body s (
          (execute_via_device_bridge transport user_id body
              >>= after_push adapter transport user_id body dry_run)
            s)
  deliver s = elim (Bool-cases (transport.has_online_devices s.orders user_id)) [
    | inl on ↦ elim (Bool-cases (transport.push_order s.orders user_id body).put_out) [
      | inl out ↦ deliver_from s _ (after_push-bridged s _) (pushed s on out)
      | inr back ↦ deliver_from s _ (after_push-unsent s _ on back refl) (kept_back s on back)
    ]
    | inr off ↦ deliver_from s (ok none, s) (none_pushed s) (not_pushed s off)
  ]

-- A futures order sends nothing, one order over the device bridge, one to the forward URL, or both
-- in that sequence, all with the payload of the trade, and the forward URL only if one is
-- configured. It leaves the database alone, and reports success only if it sent something or the
-- bridge, with a device online, reported a success for the order without putting it out.
pub execute_futures_order-IsDelivered :
    (adapter : NinjaTraderAdapter) (transport : Transport) (token user_id : String)
    (validated : ValidatedFuturesTrade) (dry_run : Bool) (s : Session)
    → IsDelivered adapter transport user_id
        (build_order_payload token validated dry_run)
        s
        (execute_futures_order adapter transport token user_id validated dry_run s)
unfolding execute_futures_order
execute_futures_order-IsDelivered adapter transport token user_id validated dry_run s =
    deliver adapter transport user_id (build_order_payload token validated dry_run) dry_run s
