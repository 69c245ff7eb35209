-- ===== src/Tradier/Laws.antt =====
-- What leaves the program through the Tradier adapter, and what it reports.
use trade_receiver.Prelude.{
  String, true, List, [], ◌∷◌, ◌++◌, ◌≡◌, ◌≢◌, ◌⊎◌, inl, inr, refl, ◌==◌, eq_iff, Bool-cases,
}
use trade_receiver.Prelude.Int.{ℤ, Decimal}
use trade_receiver.Json.{Json}
use trade_receiver.Trade.{OptionContract, OrderResult}
use trade_receiver.Session.{Result, ok}
use trade_receiver.Http.{Call, post_call, Http, Net}
use trade_receiver.Http.Laws.{Calls-request, read_body_calls}
use trade_receiver.Tradier.{
  TradierAdapter, Form, orders_url, is_simulated, option_form, take_profit_form, quantize,
  answer_order, post_order, post_leg, place_order, place_order_with_take_profit,
}

-- Nothing is sent without an account, nor on paper outside the sandbox.
abbrev pub IsHeld : TradierAdapter → String → Type 0
IsHeld a mode = (a.account_id ≡ "") ⊎ (is_simulated a mode ≡ true)

abbrev pub entry_call : TradierAdapter → OptionContract → ℤ → String → Call Form
entry_call a contract quantity side = post_call (orders_url a) (option_form contract quantity side)

abbrev pub leg_call : TradierAdapter → OptionContract → ℤ → Decimal → Call Form
leg_call a contract quantity tp =
    post_call (orders_url a) (take_profit_form contract quantity (quantize tp))

pub ok_same : {A : Type 0} (a b : A) → ok a ≡ ok b → a ≡ b
ok_same a b h = cc

module _ (http : Http Form) (a : TradierAdapter) where
  post_order_calls :
      (form : Form) (calls : List (Call Form))
      → (post_order http a form calls).1 ≡ calls ++ post_call (orders_url a) form ∷ []
  unfolding post_order
  post_order_calls form calls =
      Calls-request http _ (answer_order http) calls (λ resp. read_body_calls resp _ _)

  place_order_calls :
      (contract : OptionContract) (quantity : ℤ) (side mode : String) (calls : List (Call Form))
      → (IsHeld a mode × ((place_order http a contract quantity side mode calls).1 ≡ calls))
        ⊎ ((place_order http a contract quantity side mode calls).1
            ≡ calls ++ entry_call a contract quantity side ∷ [])
  unfolding place_order
  place_order_calls contract quantity side mode calls = elim (Bool-cases (a.account_id == "")) [
    | inl e ↦ inl (inl ((eq_iff a.account_id "").0 e), rw e refl)
    | inr e ↦ elim (Bool-cases (is_simulated a mode)) [
      | inl f ↦ inl (inr f, rw (e, f) refl)
      | inr f ↦ inr (rw (e, f) (post_order_calls _ calls))
    ]
  ]

-- What a call with a take-profit price leaves behind, and what it answers: nothing is sent; or the
-- entry alone, because it was not accepted or does not open; or the entry and then the leg, and the
-- answer, if there is one, is a success with the entry's identifier.
pub data Traffic (http : Http Form) (a : TradierAdapter) (contract : OptionContract) (quantity : ℤ)
    (side mode : String) (tp : Decimal) (calls : List (Call Form))
    : Result OrderResult × List (Call Form) → Type 0 where
  held :
      (r : Result OrderResult)
      → IsHeld a mode
      → Traffic http a contract quantity side mode tp calls (r, calls)
  entered :
      (r : Result OrderResult)
      → ((e : OrderResult) → r ≡ ok e → e.success ≡ true → side ≢ "buy_to_open")
      → Traffic http a contract quantity side mode tp calls
          (r, calls ++ entry_call a contract quantity side ∷ [])
  covered :
      (r : Result OrderResult) (e : OrderResult)
      → (place_order http a contract quantity side mode calls).0 ≡ ok e
      → e.success ≡ true
      → side ≡ "buy_to_open"
      → ((res : OrderResult) → r ≡ ok res → (res.success ≡ true) × (res.order_id ≡ e.order_id))
      → Traffic http a contract quantity side mode tp calls (
        r,
        (calls ++ entry_call a contract quantity side ∷ []) ++ leg_call a contract quantity tp ∷ [],
      )

module _ (http : Http Form) (a : TradierAdapter) (contract : OptionContract) (quantity : ℤ)
    (side mode : String) (tp : Decimal) (calls : List (Call Form)) where
  abbrev Outcome : Result OrderResult × List (Call Form) → Type 0
  Outcome = Traffic http a contract quantity side mode tp calls

  abbrev entry_sent : List (Call Form)
  entry_sent = calls ++ entry_call a contract quantity side ∷ []

  abbrev leg_after : OrderResult → Net Form OrderResult
  leg_after = post_leg http a (take_profit_form contract quantity (quantize tp))

  pub place_order-simulated :
      is_simulated a mode ≡ true → (place_order http a contract quantity side mode calls).1 ≡ calls
  unfolding place_order
  place_order-simulated h = elim (Bool-cases (a.account_id == "")) [
    | inl e ↦ rw e refl
    | inr e ↦ rw (e, h) refl
  ]

  pub take_profit-simulated :
      is_simulated a mode ≡ true
      → (place_order_with_take_profit http a contract quantity side mode tp calls).1 ≡ calls
  unfolding place_order_with_take_profit place_order
  take_profit-simulated h = elim (Bool-cases (a.account_id == "")) [
    | inl e ↦ rw e refl
    | inr e ↦ rw (e, h) refl
  ]
