-- ===== src/Orders/Pnl/Laws.antt =====
-- Which rows a profit is computed from.
use trade_receiver.Prelude.{
  String, true, false, some, List, [], ◌∷◌, ◌≡◌, ◌≢◌, refl, inl, inr, arith, Bool-cases,
  Option-cases, eq_iff, eq_refl, ◌==◌,
}
use trade_receiver.Prelude.Int.{ℤ, pos, Decimal, ◌+ℤ◌, ◌*ℤ◌, eqb_ℤ}
use trade_receiver.Tables.{TradeExecution, ExecutionStatus, filled}
use trade_receiver.Orders.Pnl.{
  of_position, is_filled, mentions_close, open_price, Opens, add_open, sum_opens, no_opens, pnl_of,
  compute_close_pnl,
}

-- A filled row of the user and the contract, with a price that is not zero, whose intent does not
-- speak of a close.
pub record IsOpening (user_id contract_symbol : String) (row : TradeExecution) (price : Decimal)
    : Type 0 where
  pub of_user : row.user_id ≡ user_id
  pub of_contract : row.contract_symbol ≡ contract_symbol
  pub is_filled : row.status ≡ filled
  pub priced : row.fill_price ≡ some price
  pub nonzero : price ≢ pos 0
  pub opens : mentions_close row.intent_json ≡ false

-- What the rows add to a cost and a quantity: an opening row its price times its quantity and its
-- quantity, any other row nothing.
pub data AddsUp (user_id contract_symbol : String)
    : List TradeExecution → Opens → Opens → Type 0 where
  no_rows : (o : Opens) → AddsUp user_id contract_symbol [] o o
  opening :
      (row : TradeExecution) (rows : List TradeExecution) (price : Decimal) (o o' : Opens)
      → IsOpening user_id contract_symbol row price
      → AddsUp user_id contract_symbol rows
          (record { cost = o.cost +ℤ price *ℤ row.quantity; quantity = o.quantity +ℤ row.quantity })
          o'
      → AddsUp user_id contract_symbol (row ∷ rows) o o'
  other :
      (row : TradeExecution) (rows : List TradeExecution) (o o' : Opens)
      → ((price : Decimal) → IsOpening user_id contract_symbol row price → ⊥)
      → AddsUp user_id contract_symbol rows o o'
      → AddsUp user_id contract_symbol (row ∷ rows) o o'

is_filled-filled : (status : ExecutionStatus) → is_filled status ≡ true → status ≡ filled
is_filled-filled filled h = refl
is_filled-filled _ h = cc

nonzero_test : (price : Decimal) → price ≢ pos 0 → eqb_ℤ price (pos 0) ≡ false
nonzero_test price h = ground arith

module _ (user_id contract_symbol : String) (row : TradeExecution) where
  open_price-IsOpening :
      (price : Decimal)
      → of_position user_id contract_symbol row ≡ true
      → open_price row ≡ some price
      → IsOpening user_id contract_symbol row price
  unfolding open_price
  open_price-IsOpening price on e = record {
    of_user = ground (arith, eq_iff row.user_id user_id);
    of_contract = ground (arith, eq_iff row.contract_symbol contract_symbol);
    is_filled = is_filled-filled row.status (ground arith);
    priced = ground arith;
    nonzero = ground arith;
    opens = ground arith;
  }

  IsOpening-of_position :
      (price : Decimal)
      → IsOpening user_id contract_symbol row price
      → of_position user_id contract_symbol row ≡ true
  IsOpening-of_position price h =
      rw (h.of_user, h.of_contract, h.is_filled)
        (ground (arith, eq_refl user_id, eq_refl contract_symbol))

  IsOpening-open_price :
      (price : Decimal) → IsOpening user_id contract_symbol row price → open_price row ≡ some price
  unfolding open_price
  IsOpening-open_price price h = rw (h.priced, h.opens) (rw (nonzero_test price h.nonzero) refl)

sum_opens-AddsUp :
    (user_id contract_symbol : String) (rows : List TradeExecution) (o : Opens)
    → AddsUp user_id contract_symbol rows o (sum_opens user_id contract_symbol rows o)
unfolding sum_opens
sum_opens-AddsUp user_id contract_symbol [] o = no_rows o
sum_opens-AddsUp user_id contract_symbol (row ∷ rows) o =
    elim (Bool-cases (of_position user_id contract_symbol row)) [
      | inr off ↦ rw off (
          other row rows o _
            (λ price h. cc (IsOpening-of_position user_id contract_symbol row price h))
            (sum_opens-AddsUp user_id contract_symbol rows o))
      | inl on ↦ elim (Option-cases (open_price row)) [
        | inl closed ↦
            rw (on, closed)
              (other row rows o _
                (λ price h. cc (IsOpening-open_price user_id contract_symbol row price h))
                (sum_opens-AddsUp user_id contract_symbol rows o))
        | inr (price, opened) ↦
            rw (on, opened)
              (opening row rows price o _
                (open_price-IsOpening user_id contract_symbol row price on opened)
                (sum_opens-AddsUp user_id contract_symbol rows
                  (add_open (some price) row.quantity o)))
      ]
    ]

-- The profit of a close at a price is that of the cost and the quantity to which the user's opening
-- rows of the contract add up: filled rows with a price that is not zero and an intent that does not
-- speak of a close. No other row has a part in it.
pub compute_close_pnl-AddsUp :
    (rows : List TradeExecution) (user_id contract_symbol : String) (quantity : ℤ) (fill : Decimal)
    → contract_symbol ≢ ""
    → (o : Opens) × AddsUp user_id contract_symbol rows no_opens o
      × (compute_close_pnl rows user_id contract_symbol quantity (some fill)
          ≡ pnl_of o quantity fill)
unfolding compute_close_pnl
compute_close_pnl-AddsUp rows user_id contract_symbol quantity fill named = (
  sum_opens user_id contract_symbol rows no_opens,
  sum_opens-AddsUp user_id contract_symbol rows no_opens,
  elim (Bool-cases (contract_symbol == "")) [
    | inl blank ↦ absurd (named ((eq_iff contract_symbol "").0 blank))
    | inr set ↦ rw set refl
  ],
)
