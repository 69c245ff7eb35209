-- ===== src/Tests/Devices.antt =====
-- Two devices of a user, one of them stale, and an order that is pushed twice.
use trade_receiver.Prelude.{
  ◌+◌, ◌-◌, ◌↔◌, In, String, true, false, none, some, [], ◌∷◌, ◌≡◌, ◌≢◌, ◌≤◌, refl, ◌⊎◌, any,
  length, arith, eq_iff,
}
use trade_receiver.DeviceBridge.{
  is_done, Ack, acked, LiveDeviceConnection, Registry, has_order, prune_delivered_orders,
  was_order_delivered, primary_connection, latest, ack_ok,
}
use trade_receiver.DeviceBridge.Push.{
  ack, handle_incoming, already_delivered, waiting, start_push, push_unless, send_order,
  finish_push, cleanup_stale,
}
use trade_receiver.DeviceBridge.Laws.{IsPrimary, cleanup_stale_lem, start_push-waiting}
use trade_receiver.DeviceBridge.Settling.{handle_incoming-start_push}
use trade_receiver.DeviceBridge.Duplicates.{IsDuplicate, start_push-already_delivered_iff}
use trade_receiver.DeviceBridge.Delivery.{finish_push-start_push}

abbrev laptop : LiveDeviceConnection
laptop = record {
  user_id = "u1";
  device_id = "d1";
  websocket = 1;
  last_seen = 100000;
  pending_acks = [];
}

abbrev phone : LiveDeviceConnection
phone = record {
  user_id = "u1";
  device_id = "d2";
  websocket = 2;
  last_seen = 5000;
  pending_acks = [];
}

abbrev registry : Registry
registry = record { connections = phone ∷ (laptop ∷ []); delivered_orders = []; settled = [] }

abbrev order_o1 : String
order_o1 = "o1"

abbrev yes_ack : Ack
yes_ack = record { ok = some true; success = none; id = "o1"; reason = "" }

cleanup_stale_lem_example :
    let (n, r') = cleanup_stale 110000 registry in
    ((c : LiveDeviceConnection)
      → In c r'.connections ↔ (In c registry.connections × (110000 - c.last_seen ≤ 90000)))
    × (n + length r'.connections ≡ 2)
    × (r'.delivered_orders ≡ [])
cleanup_stale_lem_example = cleanup_stale_lem 110000 registry

laptop_waits : (start_push "u1" "o1" 7 true 110000 registry).0 ≡ waiting laptop
unfolding start_push push_unless send_order was_order_delivered prune_delivered_orders
    primary_connection latest
laptop_waits = refl

start_push-waiting_example :
    IsPrimary "u1" registry laptop
    × ((order_o1 ≡ "")
        ⊎ (any (has_order "o1") (prune_delivered_orders 110000 registry).delivered_orders ≡ false))
start_push-waiting_example = start_push-waiting "u1" "o1" 7 true 110000 registry laptop laptop_waits

accepts : ack_ok yes_ack ≡ true
unfolding ack_ok
accepts = refl

named : order_o1 ≢ ""
named e = ground (arith, eq_iff order_o1 "")

finish_push-start_push_example :
    (start_push "u1" "o1" 8 true 120000
      (finish_push laptop "o1" (acked yes_ack) 115000 registry).1).0
    ≡ already_delivered
finish_push-start_push_example =
    finish_push-start_push "u1" "o1" laptop yes_ack 8 true 115000 120000 registry accepts refl named
      (omega arith)

abbrev twice : Registry
twice = record registry { delivered_orders = record { order_id = "o1"; at = 115000 } ∷ [] }

start_push-already_delivered_iff_example :
    ((start_push "u1" "o1" 8 true 120000 twice).0 ≡ already_delivered)
    ↔ ((order_o1 ≢ "") × IsDuplicate "o1" 120000 twice.delivered_orders)
start_push-already_delivered_iff_example =
    start_push-already_delivered_iff "u1" "o1" 8 true 120000 twice

handle_incoming-start_push_example :
    let r' = (start_push "u1" "o1" 7 true 110000 registry).1 in
    is_done 7 (handle_incoming "u1" "d1" (ack yes_ack) 111000 r').1.settled ≡ true
handle_incoming-start_push_example =
    handle_incoming-start_push "u1" yes_ack 7 true 110000 111000 registry laptop (λ e. cc)
      laptop_waits refl
