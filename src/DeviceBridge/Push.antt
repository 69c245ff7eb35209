-- ===== src/DeviceBridge/Push.antt =====
-- Incoming messages, the two steps of a push, the pings and the removal of stale connections.
use trade_receiver.Prelude.{
  ℕ, ◌-◌, suc, String, Bool, true, false, not, Option, none, some, List, [], ◌∷◌, ◌==◌, eqb, ltb,
  find, filter, update, if◌then◌else◌,
}
use trade_receiver.Prelude.Text.{or_text}
use trade_receiver.NinjaTrader.{PushResult}
use trade_receiver.DeviceBridge.{
  Ack, Settlement, acked, disconnected, timed_out, Pending, LiveDeviceConnection, Settled, Registry,
  stale_connection, ack_ok, has_key, put, settle, settle_all, unregister, touch, primary_connection,
  was_order_delivered, mark_order_delivered,
}

pub data Message : Type 0 where
  hello : String → Message
  pong : Message
  ack : Ack → Message
  unknown : Message

abbrev pub has_order_id : String → Pending → Bool
has_order_id order_id p = p.order_id == order_id

-- `pending_acks.pop(order_id, None)` of the connection with a socket
abbrev pub drop_pending : ℕ → String → List LiveDeviceConnection → List LiveDeviceConnection
drop_pending websocket order_id =
    update (λ c. eqb c.websocket websocket)
      (λ c. record c { pending_acks = filter (λ p. not (has_order_id order_id p)) c.pending_acks })

abbrev pub settle_found : Option Pending → Settlement → List Settled → List Settled
settle_found none settlement done = done
settle_found (some p) settlement done = settle p.ticket settlement done

unfoldable pub take_ack : Option LiveDeviceConnection → Ack → Registry → Bool × Registry
take_ack none a r = (false, r)
take_ack (some c) a r = (
  true,
  record r {
    connections = drop_pending c.websocket a.id r.connections;
    settled = settle_found (find (has_order_id a.id) c.pending_acks) (acked a) r.settled;
  },
)

-- an unknown connection has nothing to touch
unfoldable pub handle_incoming : String → String → Message → ℕ → Registry → Bool × Registry
unfolding touch take_ack
handle_incoming user_id device_id (hello id) now r = (true, touch user_id device_id now r)
handle_incoming user_id device_id pong now r = (true, touch user_id device_id now r)
handle_incoming user_id device_id (ack a) now r =
    take_ack (find (has_key user_id device_id) r.connections) a (touch user_id device_id now r)
handle_incoming user_id device_id unknown now r = (false, r)

-- What the first step of a push comes to; a push that waits has a connection.
pub data Started : Type 0 where
  already_delivered no_device : Started
  send_failed waiting : LiveDeviceConnection → Started

abbrev pub add_pending : ℕ → String → ℕ → List LiveDeviceConnection → List LiveDeviceConnection
add_pending websocket order_id ticket =
    update (λ c. eqb c.websocket websocket)
      (λ c. record c {
        pending_acks =
            put (has_order_id order_id) (record { order_id = order_id; ticket = ticket })
              c.pending_acks;
      })

-- a failed send takes the future back and drops the device
unfoldable pub send_order :
    String → String → ℕ → Bool → Option LiveDeviceConnection → Registry → Started × Registry
send_order user_id order_id ticket delivered none r = (no_device, r)
send_order user_id order_id ticket false (some c) r = (
  send_failed c,
  unregister user_id c.device_id
      (record r { connections = drop_pending c.websocket order_id r.connections }),
)
send_order user_id order_id ticket true (some c) r = (
  waiting c,
  if order_id == ""
      then r
      else record r { connections = add_pending c.websocket order_id ticket r.connections },
)

unfoldable pub push_unless : String → String → ℕ → Bool → Bool × Registry → Started × Registry
push_unless user_id order_id ticket delivered (true, r) = (already_delivered, r)
push_unless user_id order_id ticket delivered (false, r) =
    send_order user_id order_id ticket delivered (primary_connection user_id r) r

-- the first step of `push_order`; `sent` says whether the socket took the order
unfoldable pub start_push : String → String → ℕ → Bool → ℕ → Registry → Started × Registry
start_push user_id order_id ticket sent now r =
    push_unless user_id order_id ticket sent
      (if order_id == "" then (false, r) else was_order_delivered order_id now r)

abbrev pub id_or_none : String → Option String
id_or_none t = if t == "" then none else some t

abbrev pub push_failure : String → String → PushResult
push_failure order_id message = record {
  success = false;
  order_id = id_or_none order_id;
  error = some message;
}

abbrev pub ack_error : Ack → Option String
ack_error a = if ack_ok a then none else some (or_text a.reason "device rejected order")

-- the second step, when the future is settled or its time is up
unfoldable pub finish_push :
    LiveDeviceConnection → String → Settlement → ℕ → Registry → PushResult × Registry
finish_push c order_id timed_out now r = (
  push_failure order_id "device did not acknowledge order in time",
  record r { connections = drop_pending c.websocket order_id r.connections },
)
finish_push c order_id disconnected now r = (
  push_failure order_id "",
  record r { connections = drop_pending c.websocket order_id r.connections },
)
finish_push c order_id (acked a) now r =
    let ack_order_id = or_text a.id order_id in
    (
      record { success = ack_ok a; order_id = id_or_none ack_order_id; error = ack_error a },
      if ack_ok a
          then (if ack_order_id == "" then r else mark_order_delivered ack_order_id now r)
          else r,
    )

-- the pings go to the connections as they were at the start; `answers` says which sockets take one
unfoldable pub send_pings : (ℕ → Bool) → List LiveDeviceConnection → Registry → Registry
send_pings answers [] r = r
send_pings answers (c ∷ cs) r =
    send_pings answers cs (if answers c.websocket then r else unregister c.user_id c.device_id r)

abbrev pub is_stale : ℕ → LiveDeviceConnection → Bool
is_stale now c = ltb stale_connection (now - c.last_seen)

-- The loop over the connections: how many were removed, which stay, and what was settled.
unfoldable pub sweep :
    ℕ → List LiveDeviceConnection → List Settled → ℕ × List LiveDeviceConnection × List Settled
sweep now [] done = (0, [], done)
sweep now (c ∷ cs) done =
    let (n, kept, settled) =
      sweep now cs (if is_stale now c then settle_all timed_out c.pending_acks done else done) in
    if is_stale now c then (suc n, kept, settled) else (n, c ∷ kept, settled)

unfoldable pub cleanup_stale : ℕ → Registry → ℕ × Registry
unfolding sweep
cleanup_stale now r =
    let (n, kept, settled) = sweep now r.connections r.settled in
    (n, record r { connections = kept; settled = settled })
