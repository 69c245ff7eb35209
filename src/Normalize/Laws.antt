-- ===== src/Normalize/Laws.antt =====
-- What the keys of alerts tell apart, and which Discord messages cannot be read.
use trade_receiver.Prelude.{
  String, true, false, Option, none, some, List, ◌∷◌, ◌≡◌, ◌⊎◌, ◌↔◌, inl, inr, refl,
}
use trade_receiver.Session.{ok, err, Session}
use trade_receiver.Tables.{User}
use trade_receiver.Pipeline.{World, ingest_alert, process_inbound_alert, recover}
use trade_receiver.Json.{Fields}
use trade_receiver.Eterminal.{Library, Settings, has_key, is_eterminal_envelope}
use trade_receiver.Normalize.{
  WebhookPayload, discord_as_payload, DiscordEmbed, Validators, validation_error, normalize_discord,
  normalize_webhook_body, idempotency_key, key_json, payload_world,
}

-- Unless their digests collide, two payloads have the same key exactly when they have the same user,
-- title, subtitle, body and delivery date; no other field counts.
pub idempotency_key_iff :
    (library : Library) (user other : String) (p q : WebhookPayload)
    → (library.digest (key_json user p) ≡ library.digest (key_json other q)
        → key_json user p ≡ key_json other q)
    → (idempotency_key library user p ≡ idempotency_key library other q) ↔ (
        (user ≡ other)
        × (p.title ≡ q.title)
        × (p.subtitle ≡ q.subtitle)
        × (p.body ≡ q.body)
        × (p.delivered_date ≡ q.delivered_date))
unfolding idempotency_key
idempotency_key_iff library user other p q injective =
    (λ h. let e = injective h in (cc, cc, cc, cc, cc), λ h. cc)

first_payload-untitled :
    (app_id : String) (title description : Option String)
    → (title ≡ none) ⊎ (description ≡ none)
    → discord_as_payload app_id title description ≡ err validation_error
first_payload-untitled app_id none d h = refl
first_payload-untitled app_id (some t) none h = refl
first_payload-untitled app_id (some t) (some d) (inl h) = cc
first_payload-untitled app_id (some t) (some d) (inr h) = cc

module _ (library : Library) (validators : Validators) (settings : Settings) (world : World Fields)
    (user : User) (body : Fields) (embed : DiscordEmbed) (embeds : List DiscordEmbed)
    (s : Session) where
  -- A Discord message whose first embed has no title or no description is not stored: normalising
  -- it raises a validation error, and the handler passes that on with nothing committed.
  pub ingest_alert-untitled :
      is_eterminal_envelope body ≡ false
      → has_key "embeds" body ≡ true
      → validators.discord_payload body ≡ ok (embed ∷ embeds)
      → (embed.title ≡ none) ⊎ (embed.description ≡ none)
      → ingest_alert (payload_world library validators settings world) user body s
        ≡ (err validation_error, record s { db = s.saved })
  unfolding ingest_alert process_inbound_alert normalize_webhook_body normalize_discord recover
  ingest_alert-untitled plain discord read untitled =
      rw (plain, discord, read, first_payload-untitled _ embed.title embed.description untitled)
        refl
