-- ===== src/Decision.antt =====
-- app/agents/decide_action.py and app/agents/filter_trade.py. The language model's answer to the
-- filter's prompt is a parameter; the log of its evaluations is not modelled.
pub mod Laws
use Prim.Native.String.{◌++◌ as append}
use trade_receiver.Prelude.{
  String, Bool, true, false, not, Option, none, some, ◌==◌, any, if◌then◌else◌,
}
use trade_receiver.Prelude.Int.{Decimal, ltb_ℤ}
use trade_receiver.Prelude.Text.{upper, strip, starts_with, take, or_text, split_commas}
use trade_receiver.Trade.{Action, skip, TradeIntent}
use trade_receiver.Tables.{User}
use trade_receiver.Session.{Result, ok, err}

abbrev pub is_skip : Action → Bool
is_skip skip = true
is_skip _ = false

-- `intent.model_copy(update={"action": "skip", "rationale": reason})`
abbrev pub skip_intent : TradeIntent → String → TradeIntent
skip_intent intent reason = record intent { action = skip; rationale = reason }

abbrev pub is_ticker : String → String → Bool
is_ticker underlying t = if strip t == "" then false else upper (strip t) == upper underlying

unfoldable pub ticker_allowed : Option String → String → Bool
ticker_allowed none underlying = true
ticker_allowed (some tickers) underlying =
    if tickers == "" then true else any (is_ticker underlying) (split_commas tickers)

-- `settings.ai_confidence_threshold`, 0.8 by default
unfoldable pub decide_action : Decimal → TradeIntent → User → TradeIntent
decide_action threshold intent user =
    if is_skip intent.action
    then intent
    else if ltb_ℤ intent.confidence threshold
    then skip_intent intent "confidence below threshold"
    else if not (ticker_allowed user.allowed_tickers intent.underlying)
    then skip_intent intent "ticker not allowed"
    else intent

abbrev pub prompt_prefix : String
prompt_prefix = "user prompt: "

-- `_skip`, with `SKIP_REASON_MAX` of 255
unfoldable pub skip_with_reason : TradeIntent → String → TradeIntent
skip_with_reason intent reason =
    skip_intent intent
      (take 255 (if starts_with reason prompt_prefix then reason else append prompt_prefix reason))

pub record FilterDecision : Type 0 where
  pub take_trade : Bool
  pub reason : String

-- The language model: whether it is configured, and its answer to a prompt and an intent.
pub record Llm : Type 0 where
  pub configured : Bool
  pub filter_with_llm : String → TradeIntent → Result FilterDecision

unfoldable pub judge : TradeIntent → Result FilterDecision → TradeIntent
unfolding skip_with_reason
judge intent (err e) = skip_with_reason intent "filter unavailable"
judge intent (ok decision) =
    if decision.take_trade
    then intent
    else skip_with_reason intent (or_text (strip decision.reason) "skipped by filter")

-- `_normalized_prompt`: blank means that there is no filter
unfoldable pub normalized_prompt : Option String → Option String
normalized_prompt none = none
normalized_prompt (some raw) = if strip raw == "" then none else some (strip raw)

unfoldable pub filter_by : Llm → TradeIntent → Option String → TradeIntent
unfolding judge
filter_by llm intent none = intent
filter_by llm intent (some prompt) =
    if llm.configured
    then judge intent (llm.filter_with_llm prompt intent)
    else skip_with_reason intent "filter unavailable"

unfoldable pub apply_trade_filter : Llm → TradeIntent → User → TradeIntent
apply_trade_filter llm intent user =
    if is_skip intent.action
    then intent
    else filter_by llm intent (normalized_prompt user.trade_filter_prompt)
