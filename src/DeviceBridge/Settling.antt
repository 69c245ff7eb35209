-- ===== src/DeviceBridge/Settling.antt =====
-- An acknowledgement settles the push that waits for it.
use trade_receiver.Prelude.{
  ℕ, String, Bool, true, false, Option, none, some, List, [], ◌∷◌, ◌++◌, ◌≡◌, ◌≢◌, refl, ap, ◌∙◌,
  inl, inr, arith, any, find, update, eqb, eq_iff, eqb_iff, eq_refl, ◌==◌, Bool-cases,
}
use trade_receiver.DeviceBridge.{
  Ack, Settlement, acked, Pending, LiveDeviceConnection, Settled, Registry, has_key, put, touch,
  settle, is_done, was_order_delivered, primary_connection,
}
use trade_receiver.DeviceBridge.Push.{
  ack, waiting, has_order_id, add_pending, take_ack, handle_incoming, send_order, push_unless,
  start_push,
}

find-updated :
    (same : Pending → Bool) (x : Pending) (xs : List Pending)
    → same x ≡ true
    → any same xs ≡ true
    → find same (update same (λ _. x) xs) ≡ some x
find-updated same x [] h k = cc
find-updated same x (y ∷ ys) h k = elim (Bool-cases (same y)) [
  | inl e ↦ rw (e, h) refl
  | inr e ↦ rw (e, e) (find-updated same x ys h (rw e at k))
]

find-appended :
    (same : Pending → Bool) (x : Pending) (xs : List Pending)
    → same x ≡ true
    → any same xs ≡ false
    → find same (xs ++ x ∷ []) ≡ some x
find-appended same x [] h k = rw h refl
find-appended same x (y ∷ ys) h k = elim (Bool-cases (same y)) [
  | inl e ↦ cc (rw e at k)
  | inr e ↦ rw e (find-appended same x ys h (rw e at k))
]

find-put :
    (same : Pending → Bool) (x : Pending) (xs : List Pending)
    → same x ≡ true
    → find same (put same x xs) ≡ some x
find-put same x xs h = elim (Bool-cases (any same xs)) [
  | inl e ↦ rw e (find-updated same x xs h e)
  | inr e ↦ rw e (find-appended same x xs h e)
]

done_last :
    (ticket : ℕ) (settlement : Settlement) (done : List Settled)
    → is_done ticket (done ++ (record { ticket = ticket; settlement = settlement } ∷ [])) ≡ true
done_last ticket settlement [] = ground arith
done_last ticket settlement (s ∷ done) = elim (Bool-cases (eqb s.ticket ticket)) [
  | inl e ↦ rw e refl
  | inr e ↦ rw e (done_last ticket settlement done)
]

settle-is_done :
    (ticket : ℕ) (settlement : Settlement) (done : List Settled)
    → is_done ticket (settle ticket settlement done) ≡ true
unfolding settle
settle-is_done ticket settlement done = elim (Bool-cases (is_done ticket done)) [
  | inl e ↦ rw (e, settle, e) refl
  | inr e ↦ rw (e, settle) (done_last ticket settlement done)
]

abbrev with_pending : String → ℕ → LiveDeviceConnection → LiveDeviceConnection
with_pending order_id ticket c = record c {
  pending_acks =
      put (has_order_id order_id) (record { order_id = order_id; ticket = ticket }) c.pending_acks;
}

some_connection : (x c : LiveDeviceConnection) → some x ≡ some c → x ≡ c
some_connection x c h = cc

-- the connection of a device after its push was noted
find-add_pending :
    (u d order_id : String) (ticket : ℕ) (cs : List LiveDeviceConnection) (c : LiveDeviceConnection)
    → find (has_key u d) cs ≡ some c
    → find (has_key u d) (add_pending c.websocket order_id ticket cs)
      ≡ some (with_pending order_id ticket c)
find-add_pending u d order_id ticket [] c h = cc
find-add_pending u d order_id ticket (x ∷ cs) c h = elim (Bool-cases (has_key u d x)) [
  | inl e ↦
      let same = some_connection x c (rw e at h) in
      let f = (eqb_iff x.websocket c.websocket).1 (ap (λ y. y.websocket) same) in
      rw (f, e) (ap (λ y. some (with_pending order_id ticket y)) same)
  | inr e ↦ elim (Bool-cases (eqb x.websocket c.websocket)) [
    | inl f ↦ rw (f, e) (find-add_pending u d order_id ticket cs c (rw e at h))
    | inr f ↦ rw (f, e) (find-add_pending u d order_id ticket cs c (rw e at h))
  ]
]

waiting_same : (x c : LiveDeviceConnection) → waiting x ≡ waiting c → x ≡ c
waiting_same x c h = cc

-- A push that waits has noted its ticket at the connection it waits for.
send_order-connections :
    (user_id order_id : String) (ticket : ℕ) (sent : Bool) (o : Option LiveDeviceConnection)
    (r : Registry) (c : LiveDeviceConnection)
    → (order_id == "") ≡ false
    → (send_order user_id order_id ticket sent o r).0 ≡ waiting c
    → (send_order user_id order_id ticket sent o r).1.connections
      ≡ add_pending c.websocket order_id ticket r.connections
unfolding send_order
send_order-connections user_id order_id ticket sent none r c named h = cc
send_order-connections user_id order_id ticket false (some x) r c named h = cc
send_order-connections user_id order_id ticket true (some x) r c named h =
    rw named (ap (λ y. add_pending y.websocket order_id ticket r.connections) (waiting_same x c h))

push_unless-connections :
    (user_id order_id : String) (ticket : ℕ) (sent : Bool) (p : Bool × Registry)
    (c : LiveDeviceConnection)
    → (order_id == "") ≡ false
    → (push_unless user_id order_id ticket sent p).0 ≡ waiting c
    → (push_unless user_id order_id ticket sent p).1.connections
      ≡ add_pending c.websocket order_id ticket p.1.connections
unfolding push_unless
push_unless-connections user_id order_id ticket sent (true, r) c named h = cc
push_unless-connections user_id order_id ticket sent (false, r) c named h =
    send_order-connections user_id order_id ticket sent (primary_connection user_id r) r c named h

take_ack-is_done :
    (o : Option LiveDeviceConnection) (a : Ack) (c : LiveDeviceConnection) (p : Pending)
    (r : Registry)
    → o ≡ some c
    → find (has_order_id a.id) c.pending_acks ≡ some p
    → is_done p.ticket (take_ack o a r).1.settled ≡ true
unfolding take_ack
take_ack-is_done none a c p r h found = cc
take_ack-is_done (some x) a c p r h found =
    let same = some_connection x c h in
    let there = ap (λ y. find (has_order_id a.id) y.pending_acks) same ∙ found in
    rw there (settle-is_done p.ticket (acked a) r.settled)

-- Once a push with an order's id waits for a connection, which the registry has under its device, the
-- acknowledgement of that order by the device settles the push, whatever it says.
pub handle_incoming-start_push :
    (user_id : String) (a : Ack) (ticket : ℕ) (sent : Bool) (now later : ℕ) (r : Registry)
    (c : LiveDeviceConnection)
    → a.id ≢ ""
    → (start_push user_id a.id ticket sent now r).0 ≡ waiting c
    → find (has_key user_id c.device_id) r.connections ≡ some c
    → let r' = (start_push user_id a.id ticket sent now r).1 in
      is_done ticket (handle_incoming user_id c.device_id (ack a) later r').1.settled ≡ true
unfolding start_push handle_incoming was_order_delivered
handle_incoming-start_push user_id a ticket sent now later r c named started known =
    let unnamed : (a.id == "") ≡ false = ground (arith, eq_iff a.id "") in
    let r' = (start_push user_id a.id ticket sent now r).1 in
    let noted : r'.connections ≡ add_pending c.websocket a.id ticket r.connections =
      rw (unnamed, start_push)
        (push_unless-connections user_id a.id ticket sent (was_order_delivered a.id now r) c unnamed
          (rw (unnamed, start_push) at started)) in
    let new : Pending = record { order_id = a.id; ticket = ticket } in
    take_ack-is_done (find (has_key user_id c.device_id) r'.connections) a
      (with_pending a.id ticket c) new (touch user_id c.device_id later r')
      (ap (find (has_key user_id c.device_id)) noted
        ∙ find-add_pending user_id c.device_id a.id ticket r.connections c known)
      (find-put (has_order_id a.id) new c.pending_acks (eq_refl a.id))
