-- ===== src/Webhooks/Again.antt =====
-- A body that a webhook receives again.
use mathlib.Core.Path.{subst}
use trade_receiver.Prelude.{
  ℕ, String, true, some, List, ◌≡◌, inl, inr, refl, sym, ap, ◌∙◌, find, eqb, Bool-cases,
}
use trade_receiver.Tables.{User, InboundAlert}
use trade_receiver.Session.{
  Session, http, integrity_error, runtime_error, value_error, broker_error, Result, ok, err, clash,
  rollback,
}
use trade_receiver.Session.Rules.{commit_fails, commit_works}
use trade_receiver.Pipeline.{
  World, Reply, duplicate, process_inbound_alert, duplicate_response, find_alert,
}
use trade_receiver.Pipeline.Known.{HasKey, IsKnown, HasKey-append}
use trade_receiver.Pipeline.Laws.{
  IsFresh, key_of, process_inbound_alert-IsKnown, process_known, duplicate_of-unchanged,
}
use trade_receiver.Webhooks.{
  InboundWebhook, Audit, Answer, has_id, user_of, recorded, record_event, finish, finish_result,
  handle_error, handle, receive_owned, receive_webhook, close,
}

module _ (user_id key : String) where
  -- the audit of a request loses no key, and sends nothing
  record_event-saved :
      (event : Audit) (s : Session) (events : List Audit)
      → IsKnown user_id key s
      → HasKey user_id key (record_event event (s, events)).0.saved.alerts
  unfolding record_event rollback
  record_event-saved event s events known = elim (Bool-cases (clash s.rivals s.db.alerts)) [
    | inl e ↦
        subst (λ p. HasKey user_id key (recorded event events p).0.saved.alerts)
          (sym (commit_fails s e)) (HasKey-append user_id key s.rivals s.saved.alerts known.1)
    | inr e ↦
        subst (λ p. HasKey user_id key (recorded event events p).0.saved.alerts)
          (sym (commit_works s e)) (HasKey-append user_id key s.rivals s.db.alerts known.0)
  ]

record_event-orders :
    (event : Audit) (s : Session) (events : List Audit)
    → (record_event event (s, events)).0.orders ≡ s.orders
unfolding record_event rollback
record_event-orders event s events = elim (Bool-cases (clash s.rivals s.db.alerts)) [
  | inl e ↦ ap (λ p. (recorded event events p).0.orders) (commit_fails s e)
  | inr e ↦ ap (λ p. (recorded event events p).0.orders) (commit_works s e)
]

module _ {Body : Type 0} (world : World Body) (user : User) (webhook_id : String)
    (body : Body) where
  abbrev HasAlert : List InboundAlert → Type 0
  HasAlert alerts = HasKey user.id (key_of world user body (some webhook_id)) alerts

  abbrev Known : Session → Type 0
  Known s = IsKnown user.id (key_of world user body (some webhook_id)) s

  finish_result-saved :
      (p : Result Reply × Session) (events : List Audit)
      → Known p.1
      → HasAlert (finish_result world user webhook_id body p events).1.0.saved.alerts
  unfolding finish
  finish_result-saved (ok reply, s) events known = record_event-saved _ _ _ s events known
  finish_result-saved (err e, s) events known = known.1

  -- what is saved when a request ends has the key, if the session had it
  handle-saved :
      (p : Result Reply × Session) (events : List Audit)
      → Known p.1
      → HasAlert (handle world user webhook_id body p events).1.0.saved.alerts
  unfolding handle handle_error finish rollback duplicate_response
  handle-saved (ok reply, s) events known = record_event-saved _ _ _ s events known
  handle-saved (err integrity_error, s) events known =
      finish_result-saved
        (duplicate_response world user body (some webhook_id) (record s { db = s.saved })) events
        (subst Known
          (sym (
            duplicate_of-unchanged world user body (some webhook_id)
              (find_alert user.id (key_of world user body (some webhook_id)) s.saved)
              (record s { db = s.saved })))
          (known.1, known.1))
  handle-saved (err (http code reason), s) events known = elim (Bool-cases (eqb code 402)) [
    | inl e ↦ rw e (record_event-saved _ _ _ s events known)
    | inr e ↦ rw e known.1
  ]
  handle-saved (err (runtime_error t), s) events known = known.1
  handle-saved (err (value_error t), s) events known = known.1
  handle-saved (err (broker_error t), s) events known = known.1

  -- a session that knows the key answers a duplicate and sends nothing
  handle-known :
      (t : String) (s : Session) (events : List Audit)
      → world.normalized_text body ≡ ok t
      → HasAlert s.db.alerts
      → let p =
          handle world user webhook_id body
            (process_inbound_alert world user body (some webhook_id) s)
            events in
        (id : ℕ) × (p.0 ≡ ok (record { reply = duplicate id; alert_id = some id }))
        × (p.1.0.orders ≡ s.orders)
  unfolding handle finish
  handle-known t s events n known =
      let (id, e) = process_known world user body (some webhook_id) t s n known in
      (
        id,
        ap (λ p. (handle world user webhook_id body p events).0) e,
        ap (λ p. (handle world user webhook_id body p events).1.0.orders) e
            ∙ record_event-orders _ s events,
      )

module _ {Body : Type 0} (world : World Body) (users : List User) (rows : List InboundWebhook)
    (webhook_id : String) (body : Body) (row : InboundWebhook) (user : User)
    (found : find (has_id webhook_id) rows ≡ some row) (enabled : row.enabled ≡ true)
    (owner : user_of row.user_id users ≡ some user) where
  receive_webhook-handle :
      (s : Session) (events : List Audit)
      → receive_webhook world users rows webhook_id body s events
        ≡ close (
            handle world user row.id body
              (process_inbound_alert world user body (some row.id) s)
              events)
  unfolding receive_webhook receive_owned
  receive_webhook-handle s events = rw (found, receive_webhook, enabled, owner, receive_owned) refl

  -- what a repetition after `p` comes to
  abbrev Repeats : Result Answer × (Session × List Audit) → Type 0
  Repeats p =
      let again = receive_webhook world users rows webhook_id body p.1.0 p.1.1 in
      (id : ℕ) × (again.0 ≡ ok (record { reply = duplicate id; alert_id = some id }))
      × (again.1.0.orders ≡ p.1.0.orders)

  -- Once an enabled webhook with an owner has received a body that can be normalised, from a session
  -- with what is committed and rivals with new keys, however that ended, the same body is answered as
  -- a duplicate and sends no order.
  pub receive_webhook_again :
      (t : String) (s : Session) (events : List Audit)
      → IsFresh s
      → world.normalized_text body ≡ ok t
      → let (_, (s', events')) = receive_webhook world users rows webhook_id body s events in
        let again = receive_webhook world users rows webhook_id body s' events' in
        (id : ℕ) × (again.0 ≡ ok (record { reply = duplicate id; alert_id = some id }))
        × (again.1.0.orders ≡ s'.orders)
  receive_webhook_again t s events fresh n =
      let first =
        handle world user row.id body (process_inbound_alert world user body (some row.id) s)
          events in
      let known =
        handle-saved world user row.id body (process_inbound_alert world user body (some row.id) s)
          events (process_inbound_alert-IsKnown world user body (some row.id) t s fresh n) in
      let (id, answer, orders) =
        handle-known world user row.id body t (close first).1.0 (close first).1.1 n known in
      let opened = receive_webhook-handle (close first).1.0 (close first).1.1 in
      subst Repeats (sym (receive_webhook-handle s events))
        (id, ap (λ p. p.0) opened ∙ answer, ap (λ p. p.1.0.orders) opened ∙ orders)
