-- ===== src/Webhooks/Laws.antt =====
-- Who reaches a webhook.
use mathlib.Core.Path.{subst}
use trade_receiver.Prelude.{
  String, not, none, List, [], ◌∷◌, ◌≡◌, inl, inr, refl, sym, arith, ◌==◌, find, filter, find_sound,
  In-any, eq_iff, eq_refl, Bool-cases, Option-cases, Bool, false, some, any, In, find-In, ◌||◌, ◌≢◌,
}
use trade_receiver.Tables.{text, User, InboundAlert}
use trade_receiver.Session.{Session, http, Result, ok, err}
use trade_receiver.Session.Rules.{err_ok}
use trade_receiver.Pipeline.{World}
use trade_receiver.Webhooks.{
  InboundWebhook, Audit, has_id, is_own, is_alert_of, is_event_of, delete_webhook, receive_webhook,
  close,
}

abbrev pub not_found : {A : Type 0} → Session → List Audit → Result A × (Session × List Audit)
not_found s events = close (err (http 404 (text "Webhook not found")), (s, events))

-- an identifier that was filtered out is not found
find-filter :
    (webhook_id : String) (rows : List InboundWebhook)
    → find (has_id webhook_id) (filter (λ r. not (r.id == webhook_id)) rows) ≡ none
find-filter webhook_id [] = refl
find-filter webhook_id (r ∷ rows) = elim (Bool-cases (r.id == webhook_id)) [
  | inl e ↦ rw e (find-filter webhook_id rows)
  | inr e ↦ rw (e, e) (find-filter webhook_id rows)
]

module _ {Body : Type 0} (world : World Body) (users : List User) (webhook_id : String)
    (body : Body) (s : Session) (events : List Audit) where
  receive_webhook-unknown :
      (rows : List InboundWebhook)
      → find (has_id webhook_id) rows ≡ none
      → receive_webhook world users rows webhook_id body s events ≡ not_found s events
  unfolding receive_webhook
  receive_webhook-unknown rows h = rw (h, receive_webhook) refl

-- What allows a deletion: the row is the user's, and no alert and no audit event refers to it.
pub record IsUnused (user : User) (webhook_id : String) (alerts : List InboundAlert)
    (events : List Audit) (rows : List InboundWebhook) : Type 0 where
  pub row : InboundWebhook
  pub listed : In row rows
  pub same_id : row.id ≡ webhook_id
  pub owned : row.user_id ≡ user.id
  pub no_alert : (a : InboundAlert) → In a alerts → a.inbound_webhook_id ≢ some webhook_id
  pub no_event : (e : Audit) → In e events → e.webhook_id ≢ webhook_id

neither : (a b : Bool) → (a || b) ≡ false → (a ≡ false) × (b ≡ false)
neither a b h = ground arith

-- an alert or an event of the webhook makes the test of its references true
module _ (webhook_id : String) (alerts : List InboundAlert) (events : List Audit)
    (clear : (any (is_alert_of webhook_id) alerts || any (is_event_of webhook_id) events)
      ≡ false) where
  unreferenced_by_alert : (a : InboundAlert) → In a alerts → a.inbound_webhook_id ≢ some webhook_id
  unreferenced_by_alert a i e =
      let used = In-any (is_alert_of webhook_id) alerts a i (rw e (eq_refl webhook_id)) in
      let (unused, _) =
        neither (any (is_alert_of webhook_id) alerts) (any (is_event_of webhook_id) events) clear in
      cc

  unreferenced_by_event : (e : Audit) → In e events → e.webhook_id ≢ webhook_id
  unreferenced_by_event e i same =
      let used = In-any (is_event_of webhook_id) events e i (rw same (eq_refl webhook_id)) in
      let (_, unused) =
        neither (any (is_alert_of webhook_id) alerts) (any (is_event_of webhook_id) events) clear in
      cc

-- A deletion that succeeds, with the committed alerts and the audit events at hand, was of a webhook
-- of the user that none of them refers to. Whatever is sent to the webhook after it is answered with
-- 404, stores nothing, sends no order and leaves no audit event.
pub receive_webhook-delete_webhook :
    {Body : Type 0} (world : World Body) (users : List User) (user : User) (webhook_id : String)
    (rows : List InboundWebhook) (body : Body) (s : Session) (events : List Audit)
    → (delete_webhook user webhook_id s.saved.alerts events rows).0 ≡ ok webhook_id
    → IsUnused user webhook_id s.saved.alerts events rows
      × (receive_webhook world users
            (delete_webhook user webhook_id s.saved.alerts events rows).1
            webhook_id
            body
            s
            events
          ≡ not_found s events)
unfolding delete_webhook
receive_webhook-delete_webhook world users user webhook_id rows body s events deleted =
    elim (Option-cases (find (is_own user webhook_id) rows)) [
      | inl missing ↦ err_ok (rw (missing, delete_webhook) at deleted)
      | inr (row, found) ↦
          let own = find_sound (is_own user webhook_id) rows row found in
          let same : row.id ≡ webhook_id = ground (arith, eq_iff row.id webhook_id) in
          elim (Bool-cases
            (any (is_alert_of row.id) s.saved.alerts || any (is_event_of row.id) events)) [
              | inl used ↦ err_ok (rw (found, delete_webhook, used) at deleted)
              | inr clear ↦ (
                record {
                  row = row;
                  listed = find-In (is_own user webhook_id) rows row found;
                  same_id = same;
                  owned = ground (arith, eq_iff row.user_id user.id);
                  no_alert =
                      unreferenced_by_alert webhook_id s.saved.alerts events (rw same at clear);
                  no_event =
                      unreferenced_by_event webhook_id s.saved.alerts events (rw same at clear);
                },
                rw (found, delete_webhook, clear)
                    (receive_webhook-unknown world users webhook_id body s events _ (
                      subst
                        (λ i. find (has_id webhook_id) (filter (λ r. not (r.id == i)) rows) ≡ none)
                        (sym same) (find-filter webhook_id rows))),
              )
            ]
    ]
