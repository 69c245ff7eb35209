-- ===== src/DeviceBridge.antt =====
-- app/services/device_bridge.py: the registry of live devices and the delivery of orders over it.
-- The dictionary of dictionaries is the list of its connections, each with its user; times are
-- milliseconds of the monotonic clock. A push that waits for its acknowledgement is two steps, with
-- the other operations in between; a future is a ticket, and `settled` holds the tickets that are
-- done. A message is what its JSON text and its lower-cased type say.
pub mod Push
pub mod Laws
pub mod Delivery
pub mod Duplicates
pub mod Settling
use trade_receiver.Prelude.{
  ℕ, ◌+◌, ◌-◌, zero, suc, String, Bool, true, false, not, Option, none, some, List, [], ◌∷◌, ◌++◌,
  ◌==◌, ◌&&◌, eqb, ltb, any, find, filter, length, update, if◌then◌else◌,
}
use trade_receiver.Prelude.Text.{or_text}
use trade_receiver.NinjaTrader.{PushResult}

abbrev pub stale_connection : ℕ
stale_connection = 90000

abbrev pub delivered_order_ttl : ℕ
delivered_order_ttl = 3600000

-- An acknowledgement: its keys "ok" and "success", if present, its id, and "reason" or "error".
pub record Ack : Type 0 where
  pub ok : Option Bool
  pub success : Option Bool
  pub id : String
  pub reason : String

pub data Settlement : Type 0 where
  acked : Ack → Settlement
  disconnected timed_out : Settlement

pub record Pending : Type 0 where
  pub order_id : String
  pub ticket : ℕ

pub record LiveDeviceConnection : Type 0 where
  pub user_id : String
  pub device_id : String
  pub websocket : ℕ
  pub last_seen : ℕ
  pub pending_acks : List Pending

pub record Delivered : Type 0 where
  pub order_id : String
  pub at : ℕ

pub record Settled : Type 0 where
  pub ticket : ℕ
  pub settlement : Settlement

pub record Registry : Type 0 where
  pub connections : List LiveDeviceConnection
  pub delivered_orders : List Delivered
  pub settled : List Settled

abbrev pub default_bool : Option Bool → Bool → Bool
default_bool none d = d
default_bool (some b) d = b

unfoldable pub ack_ok : Ack → Bool
ack_ok ack = default_bool ack.ok (default_bool ack.success true)

abbrev pub has_key : String → String → LiveDeviceConnection → Bool
has_key user_id device_id c = c.user_id == user_id && c.device_id == device_id

-- `d[k] = v`: in place if the key is there, otherwise at the end
abbrev pub put {ℓ} : {A : Type ℓ} → (A → Bool) → A → List A → List A
put same x xs = if any same xs then update same (λ _. x) xs else xs ++ x ∷ []

-- the new connection takes the place of an older one of the same device
unfoldable pub register : String → String → ℕ → ℕ → Registry → Registry
register user_id device_id websocket now r = record r {
  connections =
      put (has_key user_id device_id)
        (record {
          user_id = user_id;
          device_id = device_id;
          websocket = websocket;
          last_seen = now;
          pending_acks = [];
        })
        r.connections;
}

abbrev pub is_done : ℕ → List Settled → Bool
is_done ticket = any (λ s. eqb s.ticket ticket)

-- `if not future.done(): future.set_...`
unfoldable pub settle : ℕ → Settlement → List Settled → List Settled
settle ticket settlement done =
    if is_done ticket done
    then done
    else done ++ (record { ticket = ticket; settlement = settlement } ∷ [])

unfoldable pub settle_all : Settlement → List Pending → List Settled → List Settled
unfolding settle
settle_all settlement [] done = done
settle_all settlement (p ∷ ps) done = settle_all settlement ps (settle p.ticket settlement done)

abbrev pub pending_of : Option LiveDeviceConnection → List Pending
pending_of none = []
pending_of (some c) = c.pending_acks

unfoldable pub unregister : String → String → Registry → Registry
unfolding settle_all
unregister user_id device_id r = record r {
  connections = filter (λ c. not (has_key user_id device_id c)) r.connections;
  settled =
      settle_all disconnected (pending_of (find (has_key user_id device_id) r.connections))
        r.settled;
}

unfoldable pub touch : String → String → ℕ → Registry → Registry
touch user_id device_id now r = record r {
  connections =
      update (has_key user_id device_id) (λ c. record c { last_seen = now }) r.connections;
}

abbrev pub of_user : String → LiveDeviceConnection → Bool
of_user user_id c = c.user_id == user_id

unfoldable pub has_online_devices : String → Registry → Bool
has_online_devices user_id r = any (of_user user_id) r.connections

abbrev pub later : LiveDeviceConnection → LiveDeviceConnection → LiveDeviceConnection
later best c = if ltb best.last_seen c.last_seen then c else best

-- `max(..., key=last_seen)`: the first of the latest
unfoldable pub latest : LiveDeviceConnection → List LiveDeviceConnection → LiveDeviceConnection
latest best [] = best
latest best (c ∷ cs) = latest (later best c) cs

abbrev pub latest_of : List LiveDeviceConnection → Option LiveDeviceConnection
latest_of [] = none
latest_of (c ∷ cs) = some (latest c cs)

unfoldable pub primary_connection : String → Registry → Option LiveDeviceConnection
primary_connection user_id r = latest_of (filter (of_user user_id) r.connections)

unfoldable pub prune_delivered_orders : ℕ → Registry → Registry
prune_delivered_orders now r = record r {
  delivered_orders = filter (λ d. not (ltb delivered_order_ttl (now - d.at))) r.delivered_orders;
}

abbrev pub has_order : String → Delivered → Bool
has_order order_id d = d.order_id == order_id

unfoldable pub was_order_delivered : String → ℕ → Registry → Bool × Registry
unfolding prune_delivered_orders
was_order_delivered order_id now r =
    let pruned = prune_delivered_orders now r in
    (any (has_order order_id) pruned.delivered_orders, pruned)

unfoldable pub mark_order_delivered : String → ℕ → Registry → Registry
mark_order_delivered order_id now r = record r {
  delivered_orders =
      put (has_order order_id) (record { order_id = order_id; at = now }) r.delivered_orders;
}
