-- ===== src/Decision/Laws.antt =====
-- What an intent that is not skipped has passed.
use trade_receiver.Prelude.{
  String, Bool, true, false, not, Option, none, some, ◌≡◌, refl, Bool-cases, inl, inr, ◌∙◌,
  if◌then◌else◌,
}
use trade_receiver.Prelude.Int.{Decimal, ltb_ℤ}
use trade_receiver.Trade.{TradeIntent}
use trade_receiver.Tables.{User}
use trade_receiver.Session.{Result, ok, err}
use trade_receiver.Decision.{
  FilterDecision, is_skip, skip_intent, ticker_allowed, decide_action, Llm, skip_with_reason, judge,
  filter_by, apply_trade_filter,
}

-- The confidence and the ticker of an intent pass the user's limits.
abbrev pub Passes : Decimal → TradeIntent → User → Type 0
Passes threshold intent user =
    (ltb_ℤ intent.confidence threshold ≡ false)
    × (ticker_allowed user.allowed_tickers intent.underlying ≡ true)

-- An intent that is not skipped did not take a branch that skips.
if_lem :
    (b : Bool) (x y : TradeIntent)
    → is_skip x.action ≡ true
    → is_skip (if b then x else y).action ≡ false
    → (b ≡ false) × ((if b then x else y) ≡ y) × (is_skip y.action ≡ false)
if_lem true x y skips h = cc
if_lem false x y skips h = (refl, refl, h)

if_keep :
    (b : Bool) (x y : TradeIntent)
    → is_skip y.action ≡ true
    → is_skip (if b then x else y).action ≡ false
    → (if b then x else y) ≡ x
if_keep true x y skips h = refl
if_keep false x y skips h = cc

eq_true-not : (b : Bool) → not b ≡ false → b ≡ true
eq_true-not true h = refl
eq_true-not false h = cc

decide_action_lem :
    (threshold : Decimal) (intent : TradeIntent) (user : User)
    → is_skip (decide_action threshold intent user).action ≡ false
    → (decide_action threshold intent user ≡ intent) × Passes threshold intent user
unfolding decide_action
decide_action_lem threshold intent user h = elim (Bool-cases (is_skip intent.action)) [
  | inl skips ↦ absurd (contradiction skips (rw skips at h))
  | inr trades ↦
      let low =
        if_lem (ltb_ℤ intent.confidence threshold) (skip_intent intent "confidence below threshold")
          (if not (ticker_allowed user.allowed_tickers intent.underlying)
            then skip_intent intent "ticker not allowed"
            else intent)
          refl (rw trades at h) in
      let other =
        if_lem (not (ticker_allowed user.allowed_tickers intent.underlying))
          (skip_intent intent "ticker not allowed") intent refl low.2 in
      (rw trades (low.1 ∙ other.1), (low.0, eq_true-not _ other.0))
]
  where
    contradiction : is_skip intent.action ≡ true → is_skip intent.action ≡ false → ⊥
    contradiction p q = cc

judge_lem :
    (intent : TradeIntent) (r : Result FilterDecision)
    → is_skip (judge intent r).action ≡ false
    → judge intent r ≡ intent
unfolding judge skip_with_reason
judge_lem intent (err e) h = cc
judge_lem intent (ok decision) h = if_keep decision.take_trade intent _ refl h

filter_by_lem :
    (llm : Llm) (intent : TradeIntent) (prompt : Option String)
    → is_skip (filter_by llm intent prompt).action ≡ false
    → filter_by llm intent prompt ≡ intent
unfolding filter_by skip_with_reason
filter_by_lem llm intent none h = refl
filter_by_lem llm intent (some prompt) h = elim (Bool-cases llm.configured) [
  | inl on ↦ rw on (judge_lem intent (llm.filter_with_llm prompt intent) (rw on at h))
  | inr off ↦ absurd (unavailable (rw off at h))
]
  where
    unavailable : is_skip (skip_with_reason intent "filter unavailable").action ≡ false → ⊥
    unavailable q = cc

apply_trade_filter_lem :
    (llm : Llm) (intent : TradeIntent) (user : User)
    → is_skip (apply_trade_filter llm intent user).action ≡ false
    → apply_trade_filter llm intent user ≡ intent
unfolding apply_trade_filter
apply_trade_filter_lem llm intent user h = elim (Bool-cases (is_skip intent.action)) [
  | inl skips ↦ rw skips refl
  | inr trades ↦ rw trades (filter_by_lem llm intent _ (rw trades at h))
]

-- An intent that is not skipped after the decision and the filter is the parsed intent, unchanged,
-- with a confidence not below the threshold and a ticker that the user allows.
pub apply_trade_filter-decide_action :
    (llm : Llm) (threshold : Decimal) (intent : TradeIntent) (user : User)
    → is_skip (apply_trade_filter llm (decide_action threshold intent user) user).action ≡ false
    → (apply_trade_filter llm (decide_action threshold intent user) user ≡ intent)
      × Passes threshold intent user
apply_trade_filter-decide_action llm threshold intent user h =
    let kept = apply_trade_filter_lem llm (decide_action threshold intent user) user h in
    let passed = decide_action_lem threshold intent user (rw kept at h) in
    (kept ∙ passed.0, passed.1)
