-- ===== src/Webhooks/Audited.antt =====
-- What a request to a webhook adds to the audit, and what that means for a deletion.
use mathlib.Core.Path.{subst}
use trade_receiver.Prelude.{
  String, Bool, true, some, List, [], ◌∷◌, ◌++◌, ◌≡◌, ◌≢◌, inl, inr, refl, arith, ◌||◌, any, find,
  find_sound, eq_iff, eq_refl, eqb, Bool-cases, Option-cases,
}
use trade_receiver.Tables.{User, InboundAlert}
use trade_receiver.Session.{
  Session, http, integrity_error, runtime_error, value_error, broker_error, Error, Result, ok, err,
  commit,
}
use trade_receiver.Pipeline.{World, Reply, process_inbound_alert}
use trade_receiver.Webhooks.{
  InboundWebhook, Audit, has_id, is_own, is_alert_of, is_event_of, user_of, recorded, record_event,
  finish, finish_result, handle_error, handle, receive_owned, receive_webhook, delete_webhook,
}

-- A request leaves the audit alone, or adds one event of the webhook.
data Logs (webhook_id : String) (events : List Audit) : List Audit → Type 0 where
  unlogged : Logs webhook_id events events
  logged :
      (event : Audit)
      → event.webhook_id ≡ webhook_id
      → Logs webhook_id events (events ++ event ∷ [])

module _ (webhook_id : String) (event : Audit) (same : event.webhook_id ≡ webhook_id) where
  recorded-Logs :
      (p : Result (Unit {0}) × Session) (events : List Audit)
      → Logs webhook_id events (recorded event events p).1
  recorded-Logs (ok u, s) events = logged event same
  recorded-Logs (err e, s) events = unlogged

  record_event-Logs :
      (s : Session) (events : List Audit)
      → Logs webhook_id events (record_event event (s, events)).1
  unfolding record_event
  record_event-Logs s events = recorded-Logs (commit s) events

module _ {Body : Type 0} (world : World Body) (user : User) (webhook_id : String)
    (body : Body) where
  finish_result-Logs :
      (p : Result Reply × Session) (events : List Audit)
      → Logs webhook_id events (finish_result world user webhook_id body p events).1.1
  unfolding finish
  finish_result-Logs (ok reply, s) events = record_event-Logs webhook_id _ refl s events
  finish_result-Logs (err e, s) events = unlogged

  handle-Logs :
      (p : Result Reply × Session) (events : List Audit)
      → Logs webhook_id events (handle world user webhook_id body p events).1.1
  unfolding handle handle_error finish
  handle-Logs (ok reply, s) events = record_event-Logs webhook_id _ refl s events
  handle-Logs (err integrity_error, s) events = finish_result-Logs _ events
  handle-Logs (err (http code reason), s) events = elim (Bool-cases (eqb code 402)) [
    | inl e ↦ rw e (record_event-Logs webhook_id _ refl s events)
    | inr e ↦ rw e unlogged
  ]
  handle-Logs (err (runtime_error t), s) events = unlogged
  handle-Logs (err (value_error t), s) events = unlogged
  handle-Logs (err (broker_error t), s) events = unlogged

module _ {Body : Type 0} (world : World Body) (users : List User) (body : Body) (s : Session)
    (events : List Audit) where
  receive_owned-Logs :
      (row : InboundWebhook) → Logs row.id events (receive_owned world users row body s events).1.1
  unfolding receive_owned
  receive_owned-Logs row = elim (Option-cases (user_of row.user_id users)) [
    | inl missing ↦ rw (missing, receive_owned) unlogged
    | inr (user, found) ↦
        rw (found, receive_owned)
          (handle-Logs world user row.id body
            (process_inbound_alert world user body (some row.id) s) events)
  ]

  receive_webhook-Logs :
      (rows : List InboundWebhook) (webhook_id : String)
      → Logs webhook_id events (receive_webhook world users rows webhook_id body s events).1.1
  unfolding receive_webhook
  receive_webhook-Logs rows webhook_id = elim (Option-cases (find (has_id webhook_id) rows)) [
    | inl missing ↦ rw (missing, receive_webhook) unlogged
    | inr (row, found) ↦
        let named = find_sound (has_id webhook_id) rows row found in
        let same : row.id ≡ webhook_id = ground (arith, eq_iff row.id webhook_id) in
        elim (Bool-cases row.enabled) [
          | inr off ↦ rw (found, receive_webhook, off) unlogged
          | inl on ↦
              rw (found, receive_webhook, on)
                (subst (λ i. Logs i events (receive_owned world users row body s events).1.1) same
                  (receive_owned-Logs row))
        ]
  ]

any-append_last :
    (p : Audit → Bool) (xs : List Audit) (x : Audit) → p x ≡ true → any p (xs ++ x ∷ []) ≡ true
any-append_last p [] x h = rw h refl
any-append_last p (y ∷ ys) x h = ground (arith, any-append_last p ys x h)

or_true : (a b : Bool) → b ≡ true → (a || b) ≡ true
or_true a b h = ground arith

Logs-any :
    (webhook_id : String) (events events' : List Audit)
    → Logs webhook_id events events'
    → events' ≢ events
    → any (is_event_of webhook_id) events' ≡ true
Logs-any webhook_id events _ unlogged changed = absurd (changed refl)
Logs-any webhook_id events _ (logged event same) changed =
    any-append_last (is_event_of webhook_id) events event (rw same (eq_refl webhook_id))

-- A deletion that fails, without a change to the rows.
abbrev pub IsKept : List InboundWebhook → Result String × List InboundWebhook → Type 0
IsKept rows p = (p.1 ≡ rows) × ((e : Error) × (p.0 ≡ err e))

delete_webhook-IsKept :
    (user : User) (webhook_id : String) (alerts : List InboundAlert) (events : List Audit)
    (rows : List InboundWebhook)
    → any (is_event_of webhook_id) events ≡ true
    → IsKept rows (delete_webhook user webhook_id alerts events rows)
unfolding delete_webhook
delete_webhook-IsKept user webhook_id alerts events rows used =
    elim (Option-cases (find (is_own user webhook_id) rows)) [
      | inl missing ↦ rw (missing, delete_webhook) (refl, (_, refl))
      | inr (row, found) ↦
          let own = find_sound (is_own user webhook_id) rows row found in
          let same : row.id ≡ webhook_id = ground (arith, eq_iff row.id webhook_id) in
          let referenced : (any (is_alert_of row.id) alerts || any (is_event_of row.id) events)
              ≡ true =
            or_true _ (any (is_event_of row.id) events) (rw same used) in
          rw (found, delete_webhook, referenced) (refl, (_, refl))
    ]

-- Once a request to a webhook has been recorded in the audit, whatever its answer was, no user can
-- delete the webhook: the deletion raises and the rows stay as they are.
pub delete_webhook-receive_webhook :
    {Body : Type 0} (world : World Body) (users : List User) (rows : List InboundWebhook)
    (webhook_id : String) (body : Body) (s : Session) (events : List Audit) (user : User)
    → (receive_webhook world users rows webhook_id body s events).1.1 ≢ events
    → let (_, (s', events')) = receive_webhook world users rows webhook_id body s events in
      IsKept rows (delete_webhook user webhook_id s'.saved.alerts events' rows)
delete_webhook-receive_webhook world users rows webhook_id body s events user changed =
    delete_webhook-IsKept user webhook_id _ _ rows (
      Logs-any webhook_id events _ (receive_webhook-Logs world users body s events rows webhook_id)
        changed)
