-- ===== src/DeviceBridge/Laws.antt =====
-- Which device an order goes to, when it is not sent again, and what the clean-up removes.
use mathlib.Core.Path.{subst}
use native.Mathlib.Nat.{le_refl}
use trade_receiver.Prelude.{
  ℕ, ◌+◌, ◌-◌, ◌≤◌, ◌↔◌, sym, String, Bool, true, false, not, Option, none, some, List, [], ◌∷◌,
  ◌≡◌, refl, ap, ◌⊎◌, inl, inr, arith, ◌==◌, ltb, any, In, In-filter, filter-In, filter, length,
  Bool-cases, eq_iff, eq_refl,
}
use trade_receiver.DeviceBridge.{
  LiveDeviceConnection, Settled, Registry, of_user, later, latest, latest_of, primary_connection,
  has_order, prune_delivered_orders, was_order_delivered, timed_out, settle_all,
}
use trade_receiver.DeviceBridge.Push.{
  waiting, send_order, push_unless, start_push, is_stale, sweep, cleanup_stale,
}

IsLatest : List LiveDeviceConnection → LiveDeviceConnection → Type 0
IsLatest cs x = In x cs × ((c : LiveDeviceConnection) → In c cs → c.last_seen ≤ x.last_seen)

le_of_later : (a b n : ℕ) → ltb a b ≡ true → b ≤ n → a ≤ n
le_of_later a b n h k = ground arith

le_of_not_later : (a b n : ℕ) → ltb a b ≡ false → a ≤ n → b ≤ n
le_of_not_later a b n h k = ground arith

later-IsLatest :
    (best d x : LiveDeviceConnection) (cs : List LiveDeviceConnection)
    → IsLatest (later best d ∷ cs) x
    → IsLatest (best ∷ d ∷ cs) x
unfolding IsLatest
later-IsLatest best d x cs h = elim (Bool-cases (ltb best.last_seen d.last_seen)) [
  | inl e ↦
      let k : IsLatest (d ∷ cs) x = rw e at h in
      (
        inr k.0,
        λ c i. elim i [
          | inl same ↦ rw same (le_of_later _ _ _ e (k.1 d (inl refl)))
          | inr more ↦ k.1 c more
        ],
      )
  | inr e ↦
      let k : IsLatest (best ∷ cs) x = rw e at h in
      (
        elim k.0 [ inl same ↦ inl same | inr more ↦ inr (inr more) ],
        λ c i. elim i [
          | inl same ↦ k.1 c (inl same)
          | inr (inl same) ↦ rw same (le_of_not_later _ _ _ e (k.1 best (inl refl)))
          | inr (inr more) ↦ k.1 c (inr more)
        ],
      )
]

latest-IsLatest :
    (best : LiveDeviceConnection) (cs : List LiveDeviceConnection)
    → IsLatest (best ∷ cs) (latest best cs)
unfolding latest IsLatest
latest-IsLatest best [] = (inl refl, λ c i. elim i [ inl e ↦ rw e (le_refl _) | inr e ↦ absurd e ])
latest-IsLatest best (d ∷ cs) = later-IsLatest best d _ cs (latest-IsLatest (later best d) cs)

-- The connection of the user that was seen last.
pub record IsPrimary (user_id : String) (r : Registry) (c : LiveDeviceConnection) : Type 0 where
  pub registered : In c r.connections
  pub owned : c.user_id ≡ user_id
  pub seen_last :
      (d : LiveDeviceConnection)
      → In d r.connections
      → d.user_id ≡ user_id
      → d.last_seen ≤ c.last_seen

latest_of-IsLatest :
    (cs : List LiveDeviceConnection) (c : LiveDeviceConnection)
    → latest_of cs ≡ some c
    → IsLatest cs c
latest_of-IsLatest [] c h = cc
latest_of-IsLatest (d ∷ cs) c h =
    let e : latest d cs ≡ c = cc in subst (IsLatest (d ∷ cs)) e (latest-IsLatest d cs)

primary_connection-IsPrimary :
    (user_id : String) (r : Registry) (c : LiveDeviceConnection)
    → primary_connection user_id r ≡ some c
    → IsPrimary user_id r c
unfolding primary_connection IsLatest
primary_connection-IsPrimary user_id r c h =
    let (i, least) = latest_of-IsLatest (filter (of_user user_id) r.connections) c h in
    let (listed, mine) = In-filter (of_user user_id) r.connections c i in
    record {
      registered = listed;
      owned = ground (arith, eq_iff c.user_id user_id);
      seen_last =
          λ d j e. least d (filter-In (of_user user_id) r.connections d j (rw e (eq_refl user_id)));
    }

sweep_lem :
    (now : ℕ) (cs : List LiveDeviceConnection) (done : List Settled)
    → ((sweep now cs done).1 ≡ filter (λ c. not (is_stale now c)) cs)
      × ((sweep now cs done).0 + length (sweep now cs done).1 ≡ length cs)
unfolding sweep
sweep_lem now [] done = (refl, refl)
sweep_lem now (c ∷ cs) done = elim (Bool-cases (is_stale now c)) [
  | inl e ↦
      let (kept, count) = sweep_lem now cs (settle_all timed_out c.pending_acks done) in
      (rw e kept, rw e (omega arith))
  | inr e ↦
      let (kept, count) = sweep_lem now cs done in (rw e (ap (λ x. c ∷ x) kept), rw e (omega arith))
]

-- a connection that is not stale was heard from within ninety seconds
stays_iff :
    (now : ℕ) (c : LiveDeviceConnection)
    → (not (is_stale now c) ≡ true) ↔ (now - c.last_seen ≤ 90000)
stays_iff now c = ground arith

-- A connection stays through the clean-up exactly if it was heard from within the last ninety seconds,
-- to the millisecond. The clean-up counts the connections that it removes, and forgets no delivered
-- order.
pub cleanup_stale_lem :
    (now : ℕ) (r : Registry)
    → let (n, r') = cleanup_stale now r in
      ((c : LiveDeviceConnection)
        → In c r'.connections ↔ (In c r.connections × (now - c.last_seen ≤ 90000)))
      × (n + length r'.connections ≡ length r.connections)
      × (r'.delivered_orders ≡ r.delivered_orders)
unfolding cleanup_stale
cleanup_stale_lem now r =
    let (kept, count) = sweep_lem now r.connections r.settled in
    let stays : LiveDeviceConnection → Bool = λ d. not (is_stale now d) in
    (
      λ c.
          subst (λ cs. In c cs ↔ (In c r.connections × (now - c.last_seen ≤ 90000))) (sym kept)
            (
              (λ i.
                  let (listed, fresh) = In-filter stays r.connections c i in
                  (listed, (stays_iff now c).0 fresh)),
              λ (listed, fresh). filter-In stays r.connections c listed ((stays_iff now c).1 fresh),
            ),
      count,
      refl,
    )

send_order-waiting :
    (user_id order_id : String) (ticket : ℕ) (sent : Bool) (o : Option LiveDeviceConnection)
    (r : Registry) (c : LiveDeviceConnection)
    → (send_order user_id order_id ticket sent o r).0 ≡ waiting c
    → o ≡ some c
unfolding send_order
send_order-waiting user_id order_id ticket sent none r c h = cc
send_order-waiting user_id order_id ticket false (some d) r c h = cc
send_order-waiting user_id order_id ticket true (some d) r c h = cc

unsent_order :
    (user_id order_id : String) (ticket : ℕ) (sent : Bool) (now : ℕ) (r : Registry)
    (c : LiveDeviceConnection) (b : Bool)
    → (push_unless user_id order_id ticket sent (b, prune_delivered_orders now r)).0 ≡ waiting c
    → IsPrimary user_id r c × (b ≡ false)
unfolding push_unless prune_delivered_orders primary_connection
unsent_order user_id order_id ticket sent now r c true h = cc
unsent_order user_id order_id ticket sent now r c false h = (
  primary_connection-IsPrimary user_id r c
      (send_order-waiting user_id order_id ticket sent _ _ c h),
  refl,
)

-- A push that waits for an acknowledgement has gone to the user's connection that was seen last, and
-- its order has no id or was not delivered within the last hour.
pub start_push-waiting :
    (user_id order_id : String) (ticket : ℕ) (sent : Bool) (now : ℕ) (r : Registry)
    (c : LiveDeviceConnection)
    → (start_push user_id order_id ticket sent now r).0 ≡ waiting c
    → IsPrimary user_id r c
      × ((order_id ≡ "")
          ⊎ (any (has_order order_id) (prune_delivered_orders now r).delivered_orders ≡ false))
unfolding start_push push_unless was_order_delivered prune_delivered_orders
start_push-waiting user_id order_id ticket sent now r c h = elim (Bool-cases (order_id == "")) [
  | inl blank ↦ (
    primary_connection-IsPrimary user_id r c
        (send_order-waiting user_id order_id ticket sent _ r c (rw blank at h)),
    inl (ground (arith, eq_iff order_id "")),
  )
  | inr named ↦
      let (primary, fresh) =
        unsent_order user_id order_id ticket sent now r c
          (any (has_order order_id) (prune_delivered_orders now r).delivered_orders)
          (rw named at h) in
      (primary, inr fresh)
]
