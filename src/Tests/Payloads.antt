-- ===== src/Tests/Payloads.antt =====
-- A webhook that is used twice and deleted, an eterminal signal, and Discord messages.
use trade_receiver.Prelude.{ℕ, String, true, false, none, some, [], ◌∷◌, ◌≡◌, ◌≢◌, ◌↔◌, refl, inl}
use trade_receiver.Prelude.Int.{pos}
use trade_receiver.Prelude.Text.{lower, strip, lstrip, rstrip}
use trade_receiver.Session.{ok, err, commit, clash}
use trade_receiver.Json.{Json, Fields, null, string, number, object, end, field}
use trade_receiver.Eterminal.{
  Library, Settings, malformed, intent_of, map_eterminal_signal, map_signal, round_strike_to_5,
  target_price, first_price, is_eterminal_envelope,
}
use trade_receiver.Normalize.{
  WebhookPayload, DiscordEmbed, Validators, payload_world, idempotency_key, validation_error,
}
use trade_receiver.Normalize.Laws.{idempotency_key_iff, ingest_alert-untitled}
use trade_receiver.Pipeline.{World, duplicate, ingest_alert, process_inbound_alert, process_unless}
use trade_receiver.Webhooks.{
  InboundWebhook, delete_webhook, receive_webhook, receive_owned, handle, finish, record_event,
}
use trade_receiver.Webhooks.Laws.{not_found, IsUnused, receive_webhook-delete_webhook}
use trade_receiver.Webhooks.Audited.{IsKept, delete_webhook-receive_webhook}
use trade_receiver.Webhooks.Again.{receive_webhook_again}
use trade_receiver.Samples.{trader}
use trade_receiver.Tests.Ingest.{world, connected, connected-IsFresh}

abbrev hook : InboundWebhook
hook = record { id = "w1"; user_id = "u1"; name = "signals"; enabled = true; created_at = 5 }

receive_webhook_again_example :
    let (_, (s', events')) =
      receive_webhook world (trader ∷ []) (hook ∷ []) "w1" "k2" connected [] in
    let again = receive_webhook world (trader ∷ []) (hook ∷ []) "w1" "k2" s' events' in
    (id : ℕ) × (again.0 ≡ ok (record { reply = duplicate id; alert_id = some id }))
    × (again.1.0.orders ≡ s'.orders)
receive_webhook_again_example =
    receive_webhook_again world (trader ∷ []) (hook ∷ []) "w1" "k2" hook trader refl refl refl "k2"
      connected [] connected-IsFresh refl

hook_deleted : (delete_webhook trader "w1" connected.saved.alerts [] (hook ∷ [])).0 ≡ ok "w1"
unfolding delete_webhook
hook_deleted = refl

receive_webhook-delete_webhook_example :
    IsUnused trader "w1" connected.saved.alerts [] (hook ∷ [])
    × (receive_webhook world
          (trader ∷ [])
          (delete_webhook trader "w1" connected.saved.alerts [] (hook ∷ [])).1
          "w1"
          "k2"
          connected
          []
        ≡ not_found connected [])
receive_webhook-delete_webhook_example =
    receive_webhook-delete_webhook world (trader ∷ []) trader "w1" (hook ∷ []) "k2" connected []
      hook_deleted

use_recorded : (receive_webhook world (trader ∷ []) (hook ∷ []) "w1" "k1" connected []).1.1 ≢ []
unfolding receive_webhook receive_owned handle finish record_event process_inbound_alert
    process_unless commit clash
use_recorded e = cc

delete_webhook-receive_webhook_example :
    let (_, (s', events')) =
      receive_webhook world (trader ∷ []) (hook ∷ []) "w1" "k1" connected [] in
    IsKept (hook ∷ []) (delete_webhook trader "w1" s'.saved.alerts events' (hook ∷ []))
delete_webhook-receive_webhook_example =
    delete_webhook-receive_webhook world (trader ∷ []) (hook ∷ []) "w1" "k1" connected [] trader
      use_recorded

-- texts are no amounts, and the digest shows the title
abbrev title_of : Json → String
title_of (object (field k v (field t (string title) rest))) = title
title_of _ = ""

abbrev library : Library
library = record {
  show = λ j. "{…}";
  read_amount = λ t. malformed;
  read_int = λ t. ok (pos 1);
  digest = title_of;
}

abbrev settings : Settings
settings = record { eterminal_take_profit_pct = pos 3000; eterminal_notional_usd = pos 5000000 }

abbrev price_5812 : Json
price_5812 = number "5812.5" (pos 58125000)

abbrev signal : Fields
signal = field "id" (string "s1") (field "side" (string " Long ") (field "price" price_5812 end))

abbrev signal_body : Fields
signal_body = field "type" (string "signal") (field "signal" (object signal) end)

-- 5812.5 is between 5810 and 5815, and goes up
maps_to_5815 :
    map_eterminal_signal library settings 20 signal_body
    ≡ ok (some (intent_of library settings 20 signal "long" (pos 58150000)))
unfolding map_eterminal_signal map_signal round_strike_to_5 target_price first_price lower strip
    lstrip rstrip
maps_to_5815 = refl

abbrev payload : String → WebhookPayload
payload title = record {
  app_id = "app";
  title = title;
  subtitle = "";
  body = "BTO";
  delivered_date = null;
  delivered_date_iso = "";
  platform = "";
}

idempotency_key_iff_example :
    (idempotency_key library "u1" (payload "A") ≡ idempotency_key library "u1" (payload "B")) ↔ (
      (◌≡◌ {A = String} "u1" "u1")
      × ((payload "A").title ≡ (payload "B").title)
      × ((payload "A").subtitle ≡ (payload "B").subtitle)
      × ((payload "A").body ≡ (payload "B").body)
      × ((payload "A").delivered_date ≡ (payload "B").delivered_date))
idempotency_key_iff_example =
    idempotency_key_iff library "u1" "u1" (payload "A") (payload "B") (λ e. cc)

abbrev untitled : DiscordEmbed
untitled = record { title = none; description = some "BTO SPY 500C"; footer_text = none }

abbrev validators : Validators
validators = record {
  webhook_payload = λ body. ok (payload "A");
  discord_payload = λ body. ok (untitled ∷ []);
}

abbrev json_world : World Fields
json_world = record {
  normalized_text = λ body. ok "";
  resolve_idempotency_key = λ user body webhook_id. "";
  is_eterminal_envelope = λ body. false;
  map_eterminal_signal = λ body. ok none;
  parse_alert = λ t body. world.parse_alert t "";
  llm = world.llm;
  threshold = world.threshold;
  from_credentials = world.from_credentials;
  open_broker = world.open_broker;
  now = 100;
  today = 10;
  clock = world.clock;
  transport = world.transport;
  uuid = "uuid";
  token = "token";
}

abbrev embeds_body : Fields
embeds_body = field "embeds" null end

no_envelope : is_eterminal_envelope embeds_body ≡ false
unfolding is_eterminal_envelope
no_envelope = refl

ingest_alert-untitled_example :
    ingest_alert (payload_world library validators settings json_world) trader embeds_body connected
    ≡ (err validation_error, record connected { db = connected.saved })
ingest_alert-untitled_example =
    ingest_alert-untitled library validators settings json_world trader embeds_body untitled []
      connected no_envelope refl refl (inl refl)
