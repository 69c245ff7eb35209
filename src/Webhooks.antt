-- ===== src/Webhooks.antt =====
-- app/api/webhooks.py, the row of app/models/tables.py that it works on, and the audit of
-- app/services/webhook_ingest_audit.py that it calls. Logging and the payload that the audit stores
-- are left out.
pub mod Laws
pub mod Again
pub mod Audited
use Prim.Native.String.{◌++◌ as append}
use trade_receiver.Prelude.{
  ℕ, String, Bool, true, false, not, Option, none, some, List, [], ◌∷◌, ◌++◌, ◌==◌, ◌&&◌, ◌||◌, leb,
  eqb, any, find, filter, if◌then◌else◌,
}
use trade_receiver.Prelude.Text.{strip}
use trade_receiver.Tables.{
  Reason, text, User, InboundAlert, Db, ExecutionStatus, filled, submitted, failed,
  validation_failed,
}
use trade_receiver.Session.{
  M, Session, Error, http, integrity_error, runtime_error, value_error, broker_error, Result, ok,
  err, ◌>>=◌, ◌>>◌, pure, raise, get_db, commit, rollback,
}
use trade_receiver.Pipeline.{
  World, Reply, duplicate, skipped, executed, find_alert, process_inbound_alert, duplicate_response,
}

pub record InboundWebhook : Type 0 where
  pub id : String
  pub user_id : String
  pub name : String
  pub enabled : Bool
  pub created_at : ℕ

-- What the rows of webhooks and users are, and the audit events, each with the alert it names.
pub record Audit : Type 0 where
  pub webhook_id : String
  pub user_id : String
  pub status : String
  pub alert_id : Option ℕ

-- newest first
abbrev insert_row : InboundWebhook → List InboundWebhook → List InboundWebhook
insert_row row [] = row ∷ []
insert_row row (r ∷ rows) =
    let rest = insert_row row rows in
    if leb r.created_at row.created_at then row ∷ (r ∷ rows) else r ∷ rest

unfoldable pub newest_first : List InboundWebhook → List InboundWebhook
newest_first [] = []
newest_first (row ∷ rows) = insert_row row (newest_first rows)

abbrev pub owned_by : User → InboundWebhook → Bool
owned_by user row = row.user_id == user.id

unfoldable pub list_webhooks : User → List InboundWebhook → List InboundWebhook
unfolding newest_first
list_webhooks user rows = newest_first (filter (owned_by user) rows)

abbrev pub new_webhook : User → String → String → ℕ → InboundWebhook
new_webhook user name id now = record {
  id = id;
  user_id = user.id;
  name = strip name;
  enabled = true;
  created_at = now;
}

-- the identifier is drawn, the time is the database's
unfoldable pub create_webhook :
    User → String → String → ℕ → List InboundWebhook → InboundWebhook × List InboundWebhook
create_webhook user name id now rows =
    let row = new_webhook user name id now in (row, rows ++ row ∷ [])

abbrev pub has_id : String → InboundWebhook → Bool
has_id webhook_id row = row.id == webhook_id

abbrev pub is_own : User → String → InboundWebhook → Bool
is_own user webhook_id row = row.id == webhook_id && row.user_id == user.id

abbrev pub or_not_found : Option InboundWebhook → Result InboundWebhook
or_not_found none = err (http 404 (text "Webhook not found"))
or_not_found (some row) = ok row

unfoldable pub get_webhook : User → String → List InboundWebhook → Result InboundWebhook
get_webhook user webhook_id rows = or_not_found (find (is_own user webhook_id) rows)

abbrev pub is_alert_of : String → InboundAlert → Bool
is_alert_of webhook_id a = elim a.inbound_webhook_id [ none ↦ false | some id ↦ id == webhook_id ]

abbrev pub is_event_of : String → Audit → Bool
is_event_of webhook_id event = event.webhook_id == webhook_id

-- The row goes by its primary key. The foreign keys of alerts and of audit events have no rule for a
-- deletion, so that the commit fails while a committed row refers to the webhook.
unfoldable pub delete_webhook :
    User
    → String
    → List InboundAlert
    → List Audit
    → List InboundWebhook
    → Result String × List InboundWebhook
delete_webhook user webhook_id alerts events rows = elim (find (is_own user webhook_id) rows) [
  | none ↦ (err (http 404 (text "Webhook not found")), rows)
  | some row ↦
      if any (is_alert_of row.id) alerts || any (is_event_of row.id) events
      then (err integrity_error, rows)
      else (ok webhook_id, filter (λ r. not (r.id == row.id)) rows)
]

-- `str(exc)` of an exception that becomes a 500
abbrev pub message : Error → String
message (runtime_error t) = t
message (value_error t) = t
message (broker_error t) = t
message integrity_error = "integrity error"
message (http code reason) = "http error"

-- The answer: the reply, and the alert that it names.
pub record Answer : Type 0 where
  pub reply : Reply
  pub alert_id : Option ℕ

abbrev pub status_name : ExecutionStatus → String
status_name filled = "filled"
status_name submitted = "submitted"
status_name failed = "failed"
status_name ExecutionStatus.skipped = "skipped"
status_name validation_failed = "validation_failed"

abbrev pub status_of : Reply → String
status_of (duplicate id) = "duplicate"
status_of (skipped reason) = "skipped"
status_of (executed status id errors) = status_name status

abbrev pub id_of : Option InboundAlert → Option ℕ
id_of none = none
id_of (some a) = some a.id

abbrev pub audit_of : String → String → String → Option ℕ → Audit
audit_of webhook_id user_id status alert_id = record {
  webhook_id = webhook_id;
  user_id = user_id;
  status = status;
  alert_id = alert_id;
}

abbrev pub recorded : Audit → List Audit → Result (Unit {0}) × Session → Session × List Audit
recorded event events (ok _, s) = (s, events ++ event ∷ [])
recorded event events (err e, s) = ((rollback s).1, events)

-- `safe_record_webhook_ingest_event`: the event is stored unless the commit fails, which rolls back
unfoldable pub record_event : Audit → Session × List Audit → Session × List Audit
record_event event (s, events) = recorded event events (commit s)

module _ {Body : Type 0} (world : World Body) (user : User) (webhook_id : String)
    (body : Body) where
  abbrev pub alert_at : Db → Option InboundAlert
  alert_at db = find_alert user.id (world.resolve_idempotency_key user body (some webhook_id)) db

  abbrev pub answer_of : Reply → Db → Answer
  answer_of (duplicate id) db = record { reply = duplicate id; alert_id = some id }
  answer_of reply db = record { reply = reply; alert_id = id_of (alert_at db) }

  -- `result` is recorded and returned
  unfoldable pub finish : Reply → Session → List Audit → Result Answer × (Session × List Audit)
  unfolding record_event
  finish reply s events =
      let answer = answer_of reply s.db in
      (
        ok answer,
        record_event (audit_of webhook_id user.id (status_of reply) answer.alert_id) (s, events),
      )

  -- after `duplicate_response`, whose exception passes through
  abbrev pub finish_result :
      Result Reply × Session → List Audit → Result Answer × (Session × List Audit)
  finish_result (ok reply, s) events = finish reply s events
  finish_result (err e, s) events = (err e, (s, events))

  -- A 402 is recorded and passed on, other HTTP errors are passed on, and any other exception is
  -- rolled back and becomes a 500.
  unfoldable pub handle_error :
      Error → Session → List Audit → Result Answer × (Session × List Audit)
  unfolding finish record_event
  handle_error integrity_error s events =
      finish_result ((rollback >> duplicate_response world user body (some webhook_id)) s) events
  handle_error (http code reason) s events = (
    err (http code reason),
    (if eqb code 402
        then record_event
            (audit_of webhook_id user.id "subscription_inactive" (id_of (alert_at s.db)))
            (s, events)
        else (s, events)),
  )
  handle_error e s events = (err (http 500 (text (message e))), ((rollback s).1, events))

  unfoldable pub handle :
      Result Reply × Session → List Audit → Result Answer × (Session × List Audit)
  unfolding finish handle_error
  handle (ok reply, s) events = finish reply s events
  handle (err e, s) events = handle_error e s events

-- the session is closed at the end, without what is not committed
abbrev pub close : {A : Type 0} → A × (Session × List Audit) → A × (Session × List Audit)
close (a, (s, events)) = (a, (record s { db = s.saved }, events))

abbrev pub user_of : String → List User → Option User
user_of id users = find (λ u. u.id == id) users

unfoldable pub receive_owned :
    {Body : Type 0}
    → World Body
    → List User
    → InboundWebhook
    → Body
    → Session
    → List Audit
    → Result Answer × (Session × List Audit)
unfolding handle
receive_owned world users row body s events = elim (user_of row.user_id users) [
  | none ↦ (err (http 404 (text "Webhook owner not found")), (s, events))
  | some user ↦
      handle world user row.id body (process_inbound_alert world user body (some row.id) s) events
]

unfoldable pub receive_webhook :
    {Body : Type 0}
    → World Body
    → List User
    → List InboundWebhook
    → String
    → Body
    → Session
    → List Audit
    → Result Answer × (Session × List Audit)
unfolding receive_owned
receive_webhook world users rows webhook_id body s events = elim (find (has_id webhook_id) rows) [
  | none ↦ close (err (http 404 (text "Webhook not found")), (s, events))
  | some row ↦
      if not row.enabled
      then close (err (http 404 (text "Webhook not found")), (s, events))
      else close (receive_owned world users row body s events)
]
