-- ===== src/Tests/Ingest.antt =====
-- A body that goes through the pipeline, is sent again, and is raced by another worker.
use trade_receiver.Prelude.{ℕ, String, true, false, none, [], ◌∷◌, ◌≡◌, refl, ◌⊎◌, In}
use trade_receiver.Prelude.Int.{pos}
use trade_receiver.Tables.{InboundAlert}
use trade_receiver.Session.{Session, ok, err, integrity_error, commit, clash}
use trade_receiver.Entitlements.{can_process_trades}
use trade_receiver.MarketHours.{is_rth}
use trade_receiver.Decision.{
  is_skip, decide_action, apply_trade_filter, ticker_allowed, filter_by, normalized_prompt,
}
use trade_receiver.Decision.Laws.{Passes, apply_trade_filter-decide_action}
use trade_receiver.Pipeline.{
  World, duplicate, find_alert, add_alert, process_inbound_alert, process_unless, process_new,
  ingest_alert,
}
use trade_receiver.Pipeline.Laws.{IsFresh, ingest_alert_again, ingest_alert_raced}
use trade_receiver.Pipeline.Orders.{process_inbound_alert_orders}
use trade_receiver.Samples.{trader, spy_intent, broker, ninjatrader, network, start, pending}

abbrev pub world : World String
world = record {
  normalized_text = λ body. ok body;
  resolve_idempotency_key = λ user body webhook_id. body;
  is_eterminal_envelope = λ body. false;
  map_eterminal_signal = λ body. ok none;
  parse_alert = λ t body. ok spy_intent;
  llm = record { configured = false; filter_with_llm = λ prompt intent. err integrity_error };
  threshold = pos 8000;
  from_credentials = λ connection. ok ninjatrader;
  open_broker = λ connection. ok broker;
  now = 100;
  today = 10;
  clock = record { weekday = 1; clock = 40000 };
  transport = network;
  uuid = "uuid";
  token = "token";
}

abbrev pub connected : Session
connected = record start {
  db = record start.db {
    connections =
        record {
          user_id = "u1";
          broker = "tradier";
          status = "connected";
          account_id = none;
          environment = none;
          encrypted_credentials = none;
        }
        ∷ [];
  };
  saved = record start.db {
    connections =
        record {
          user_id = "u1";
          broker = "tradier";
          status = "connected";
          account_id = none;
          environment = none;
          encrypted_credentials = none;
        }
        ∷ [];
  };
}

pub connected-IsFresh : IsFresh connected
unfolding clash
connected-IsFresh = record { nothing_pending = refl; rivals_are_new = refl }

ingest_alert_again_example :
    let s' = (ingest_alert world trader "k2" connected).1 in
    (id : ℕ) × (ingest_alert world trader "k2" s' ≡ (ok (duplicate id), s'))
ingest_alert_again_example =
    ingest_alert_again world trader "k2" "k2" connected connected-IsFresh refl

-- another worker commits the same key before this request's first commit
abbrev raced : Session
raced = record connected { rivals = record pending { id = 9; idempotency_key = "k2" } ∷ [] }

raced-IsFresh : IsFresh raced
unfolding clash
raced-IsFresh = record { nothing_pending = refl; rivals_are_new = refl }

raced_raises : (process_inbound_alert world trader "k2" none raced).0 ≡ err integrity_error
unfolding process_inbound_alert process_unless process_new add_alert commit clash
raced_raises = refl

ingest_alert_raced_example :
    let (answer, s') = ingest_alert world trader "k2" raced in
    (a : InboundAlert) × In a s'.saved.alerts
    × (a.user_id ≡ "u1")
    × (a.idempotency_key ≡ "k2")
    × (answer ≡ ok (duplicate a.id))
ingest_alert_raced_example =
    ingest_alert_raced world trader "k2" "k2" raced raced-IsFresh refl raced_raises

process_inbound_alert_orders_example :
    ((process_inbound_alert world trader "k2" none connected).1.orders ≡ [])
    ⊎ ((find_alert "u1" "k2" connected.db ≡ none)
        × (can_process_trades 100 trader ≡ true)
        × (is_rth world.clock ≡ true))
process_inbound_alert_orders_example = process_inbound_alert_orders world trader "k2" none connected

spy_passes :
    is_skip
      (apply_trade_filter world.llm (decide_action (pos 8000) spy_intent trader) trader).action
    ≡ false
unfolding apply_trade_filter decide_action ticker_allowed filter_by normalized_prompt
spy_passes = refl

apply_trade_filter-decide_action_example :
    (apply_trade_filter world.llm (decide_action (pos 8000) spy_intent trader) trader ≡ spy_intent)
    × Passes (pos 8000) spy_intent trader
apply_trade_filter-decide_action_example =
    apply_trade_filter-decide_action world.llm (pos 8000) spy_intent trader spy_passes
