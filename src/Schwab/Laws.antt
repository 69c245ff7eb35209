-- ===== src/Schwab/Laws.antt =====
-- What leaves the program through the Schwab adapter.
use trade_receiver.Prelude.{
  String, none, List, [], ◌∷◌, ◌++◌, ◌≡◌, ◌≢◌, inl, inr, refl, ◌==◌, ◌||◌, arith, eq_iff,
  Bool-cases, if◌then◌else◌,
}
use trade_receiver.Prelude.Int.{ℤ, Decimal}
use trade_receiver.Trade.{OptionContract}
use trade_receiver.Http.{Call, post_call, Http}
use trade_receiver.Http.Laws.{Calls-request, read_body_calls}
use trade_receiver.Schwab.{
  SchwabAdapter, SchwabOrder, Post, order_body, orders_url, option_leg, equity_leg, trigger_order,
  schwab_option_instruction, answer_order, place_live_order, place_order,
  place_order_with_take_profit, place_equity_order,
}

-- `after` is `calls`, on paper or without an account, and otherwise one order more.
pub record IsGated (a : SchwabAdapter) (mode : String) (order : SchwabOrder)
    (calls after : List (Call Post)) : Type 0 where
  pub on_paper : mode ≡ "paper" → after ≡ calls
  pub without_account : a.account_hash ≡ "" → after ≡ calls
  pub otherwise :
      mode ≢ "paper"
      → a.account_hash ≢ ""
      → after ≡ calls ++ post_call (orders_url a) (order_body order) ∷ []

place_live_order_calls :
    (http : Http Post) (a : SchwabAdapter) (order : SchwabOrder) (calls : List (Call Post))
    → (place_live_order http a order calls).1 ≡ (
        if a.account_hash == ""
        then calls
        else calls ++ post_call (orders_url a) (order_body order) ∷ [])
unfolding place_live_order
place_live_order_calls http a order calls = elim (Bool-cases (a.account_hash == "")) [
  | inl e ↦ rw e refl
  | inr e ↦ rw e (Calls-request http _ (answer_order http) calls (λ resp. read_body_calls resp _ _))
]

gated :
    (a : SchwabAdapter) (mode : String) (order : SchwabOrder) (calls after : List (Call Post))
    → after ≡ (
        if mode == "paper" || a.account_hash == ""
        then calls
        else calls ++ post_call (orders_url a) (order_body order) ∷ [])
    → IsGated a mode order calls after
gated a mode order calls after h = record {
  on_paper = λ e. ground (arith, eq_iff mode "paper");
  without_account = λ e. ground (arith, eq_iff a.account_hash "");
  otherwise = λ e f. ground (arith, eq_iff mode "paper", eq_iff a.account_hash "");
}

abbrev pub single : OptionContract → ℤ → String → SchwabOrder
single contract quantity side = record {
  leg = option_leg contract quantity (schwab_option_instruction side);
  child = none;
}

-- the order of a call with a take-profit price
abbrev pub with_child : OptionContract → ℤ → String → Decimal → SchwabOrder
with_child contract quantity side tp =
    if side == "buy_to_open"
    then trigger_order contract quantity tp
    else single contract quantity side

module _ (http : Http Post) (a : SchwabAdapter) (contract : OptionContract) (quantity : ℤ)
    (mode : String) (calls : List (Call Post)) where
  place_order-IsGated :
      (side : String)
      → IsGated a mode
          (single contract quantity side)
          calls
          (place_order http a contract quantity side mode calls).1
  unfolding place_order
  place_order-IsGated side = gated a mode _ calls _ (elim (Bool-cases (mode == "paper")) [
    | inl e ↦ rw e refl
    | inr e ↦ rw e (place_live_order_calls http a _ calls)
  ])

  take_profit-IsGated :
      (side : String) (tp : Decimal)
      → IsGated a mode
          (with_child contract quantity side tp)
          calls
          (place_order_with_take_profit http a contract quantity side mode tp calls).1
  unfolding place_order_with_take_profit place_order
  take_profit-IsGated side tp = gated a mode _ calls _ (elim (Bool-cases (mode == "paper")) [
    | inl e ↦ rw e refl
    | inr e ↦ elim (Bool-cases (side == "buy_to_open")) [
      | inl f ↦ rw (e, f) (place_live_order_calls http a _ calls)
      | inr f ↦ rw (e, f) (place_live_order_calls http a _ calls)
    ]
  ])

  pub orders-IsGated :
      (side : String) (tp : Decimal) (symbol : String)
      → IsGated a mode
          (single contract quantity side)
          calls
          (place_order http a contract quantity side mode calls).1
        × IsGated a mode
            (with_child contract quantity side tp)
            calls
            (place_order_with_take_profit http a contract quantity side mode tp calls).1
        × IsGated a mode
            (record { leg = equity_leg symbol quantity side; child = none })
            calls
            (place_equity_order http a symbol quantity side mode calls).1
  unfolding place_equity_order
  orders-IsGated side tp symbol = (
    place_order-IsGated side,
    take_profit-IsGated side tp,
    gated a mode _ calls _ (elim (Bool-cases (mode == "paper")) [
      | inl e ↦ rw e refl
      | inr e ↦ rw e (place_live_order_calls http a _ calls)
    ]),
  )
