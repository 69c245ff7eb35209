-- ===== src/Sizing/Laws.antt =====
-- Position sizing: bounds, and the budget that a size respects.
use native.Mathlib.Nat.{div-mul-le_self, lt-div-mul-add}
use trade_receiver.Prelude.{
  refl, ℕ, ◌*◌, ◌+◌, ◌/◌, ◌≤◌, ◌<◌, ◌≡◌, String, Option, none, some, Bool, true, false, Bool-cases,
  if◌then◌else◌, arith, ◌⊎◌, inl, inr, ◌==◌,
}
use trade_receiver.Prelude.Int.{leb_ℤ, ℤ, pos, Decimal, pos_part, ◌≤ℤ◌, ◌<ℤ◌, max_ℤ, ◌*ℤ◌}
use trade_receiver.Trade.{ValidatedTrade}
use trade_receiver.Tables.{User, Reason}
use trade_receiver.Session.{◌>>=◌, pure}
use trade_receiver.Session.Rules.{Reads, Reads-pure, Reads-if, Reads-ask, Reads-bind}
use trade_receiver.Broker.{BrokerAdapter}
use trade_receiver.Sizing.{
  cap_quantity, or_price, quantity_for_notional, quantity_for_risk, risk_quantity, with_price,
  positive, account_equity, by_mode, quantity_from, compute_quantity,
}

pub cap_quantity_bounds :
    (quantity most : ℤ)
    → (pos 1 ≤ℤ cap_quantity quantity most) × (cap_quantity quantity most ≤ℤ max_ℤ (pos 1) most)
unfolding cap_quantity
cap_quantity_bounds quantity most = ground arith

-- What a sizing rule promises for a budget: at least one contract and no more than the cap, and
-- beyond the first contract the cost stays in the budget; below the cap one more would not fit.
pub record IsBudgetSize (cost budget : ℕ) (most q : ℤ) : Type 0 where
  pub at_least_one : pos 1 ≤ℤ q
  pub capped : q ≤ℤ max_ℤ (pos 1) most
  pub affordable : (q ≡ pos 1) ⊎ (pos_part q * cost ≤ budget)
  pub largest : q <ℤ most → budget < (pos_part q + 1) * cost

cap_floor_le :
    (n : ℕ) (most : ℤ)
    → (cap_quantity (max_ℤ (pos 1) (pos n)) most ≡ pos 1)
      ⊎ (pos_part (cap_quantity (max_ℤ (pos 1) (pos n)) most) ≤ n)
unfolding cap_quantity
cap_floor_le n most = ground arith

cap_floor_ge :
    (n : ℕ) (most : ℤ)
    → cap_quantity (max_ℤ (pos 1) (pos n)) most <ℤ most
    → n ≤ pos_part (cap_quantity (max_ℤ (pos 1) (pos n)) most)
unfolding cap_quantity
cap_floor_ge n most h = ground arith

cost-le-budget : (cost budget q : ℕ) → q ≤ budget / cost → q * cost ≤ budget
cost-le-budget cost budget q h = grind (arith, div-mul-le_self budget cost)

budget-lt-cost : (cost budget q : ℕ) → 0 < cost → budget / cost ≤ q → budget < (q + 1) * cost
budget-lt-cost cost budget q p h = grind (arith, lt-div-mul-add {a = budget} p)

cap-floor-IsBudgetSize :
    (cost budget : ℕ) (most : ℤ)
    → 0 < cost
    → IsBudgetSize cost budget most (cap_quantity (max_ℤ (pos 1) (pos (budget / cost))) most)
cap-floor-IsBudgetSize cost budget most h = record {
  at_least_one = (cap_quantity_bounds _ most).0;
  capped = (cap_quantity_bounds _ most).1;
  affordable = elim (cap_floor_le (budget / cost) most) [
    | inl one ↦ inl one
    | inr below ↦ inr (cost-le-budget cost budget _ below)
  ];
  largest = λ more. budget-lt-cost cost budget _ h (cap_floor_ge (budget / cost) most more);
}

quantity_for_notional-eq :
    (ask notional : ℕ) (most : ℤ)
    → 0 < ask
    → quantity_for_notional (pos ask) (pos notional) most
      ≡ cap_quantity (max_ℤ (pos 1) (pos (notional / (ask * 100)))) most
unfolding quantity_for_notional cap_quantity
quantity_for_notional-eq ask notional most h = ground arith

quantity_for_risk-eq :
    (equity risk price : ℕ) (most : ℤ)
    → quantity_for_risk (pos equity) (pos risk) (pos price) most
      ≡ cap_quantity (max_ℤ (pos 1) (pos (equity * risk / (100000000 * price)))) most
unfolding quantity_for_risk cap_quantity
quantity_for_risk-eq equity risk price most = ground arith

-- A notional size, with a positive price and any budget, keeps the promise of `IsBudgetSize`: a
-- contract costs a hundred times its price.
pub quantity_for_notional-IsBudgetSize :
    (ask notional : ℕ) (most : ℤ)
    → 0 < ask
    → IsBudgetSize (ask * 100) notional most (quantity_for_notional (pos ask) (pos notional) most)
quantity_for_notional-IsBudgetSize ask notional most h =
    rw (quantity_for_notional-eq ask notional most h)
      (cap-floor-IsBudgetSize (ask * 100) notional most (omega arith))

-- So does a risk size: the budget is the equity times the percentage, both in ten-thousandths, and a
-- contract costs a hundred million of those units for each unit of its price.
pub quantity_for_risk-IsBudgetSize :
    (equity risk price : ℕ) (most : ℤ)
    → 0 < price
    → IsBudgetSize
        (100000000 * price)
        (equity * risk)
        most
        (quantity_for_risk (pos equity) (pos risk) (pos price) most)
quantity_for_risk-IsBudgetSize equity risk price most h =
    rw (quantity_for_risk-eq equity risk price most)
      (cap-floor-IsBudgetSize (100000000 * price) (equity * risk) most (omega arith))

-- A size of at least one contract and at most the cap (or one), or zero with a reason to skip.
abbrev pub IsSized : ℤ → ℤ × Option Reason → Type 0
IsSized most (q, none) = (pos 1 ≤ℤ q) × (q ≤ℤ max_ℤ (pos 1) most)
IsSized most (q, some r) = q ≡ pos 0

if-IsSized :
    (most x y : ℤ) (b : Bool)
    → IsSized most (x, none)
    → IsSized most (y, none)
    → IsSized most (if b then x else y, none)
if-IsSized most x y true p q = p
if-IsSized most x y false p q = q

one_bounds : (most : ℤ) → (pos 1 ≤ℤ pos 1) × (pos 1 ≤ℤ max_ℤ (pos 1) most)
one_bounds most = ground arith

quantity_for_notional-IsSized :
    (ask notional : Decimal) (most : ℤ)
    → IsSized most (quantity_for_notional ask notional most, none)
unfolding quantity_for_notional
quantity_for_notional-IsSized ask notional most =
    if-IsSized most _ _ (leb_ℤ (ask *ℤ pos 100) (pos 0)) (one_bounds most)
      (cap_quantity_bounds _ most)

quantity_for_risk-IsSized :
    (equity risk price : Decimal) (most : ℤ)
    → IsSized most (quantity_for_risk equity risk price most, none)
unfolding quantity_for_risk
quantity_for_risk-IsSized equity risk price most = cap_quantity_bounds _ most

module _ (most : ℤ) where
  with_price-IsSized :
      (price : Option Decimal) (missing : String) (size : Decimal → ℤ)
      → ((p : Decimal) → IsSized most (size p, none))
      → IsSized most (with_price price missing size)
  with_price-IsSized none missing size h = refl
  with_price-IsSized (some p) missing size h = ground (arith, h p)

risk_quantity-IsSized :
    (user : User) (equity price : Option Decimal)
    → IsSized user.max_contracts (risk_quantity user equity price)
unfolding risk_quantity
risk_quantity-IsSized user none price = refl
risk_quantity-IsSized user (some e) price = elim (Bool-cases (leb_ℤ e (pos 0))) [
  | inl poor ↦ rw poor refl
  | inr rich ↦ rw rich (
      with_price-IsSized user.max_contracts price _ _
        (λ p. quantity_for_risk-IsSized e user.risk_percent p user.max_contracts))
]

risk_mode-Reads :
    (user : User) (validated : ValidatedTrade) (adapter : BrokerAdapter)
    → Reads (IsSized user.max_contracts) (do
      equity ← account_equity adapter
      pure (risk_quantity user equity (or_price validated.ask validated.limit_price)))
unfolding account_equity
risk_mode-Reads user validated adapter =
    Reads-bind (λ _. Unit {0}) _ (account_equity adapter) _
      (Reads-ask _ (λ s. adapter.get_account_equity s.orders) (λ _. tt))
      (λ equity _. Reads-pure _ _ (risk_quantity-IsSized user equity _))

notional_mode-IsSized :
    (user : User) (validated : ValidatedTrade)
    → IsSized user.max_contracts (
        with_price
          (or_price validated.ask validated.limit_price)
          "missing option price for dollar notional sizing"
          λ p. quantity_for_notional p (pos 10000000) user.max_contracts)
notional_mode-IsSized user validated =
    with_price-IsSized user.max_contracts (or_price validated.ask validated.limit_price) _ _
      (λ p. quantity_for_notional-IsSized p (pos 10000000) user.max_contracts)

capped-Reads :
    (user : User) (quantity : ℤ)
    → Reads (IsSized user.max_contracts) (pure (cap_quantity quantity user.max_contracts, none))
capped-Reads user quantity = Reads-pure _ _ (cap_quantity_bounds quantity user.max_contracts)

by_mode-Reads :
    (user : User) (validated : ValidatedTrade) (adapter : BrokerAdapter) (mode : String)
    → Reads (IsSized user.max_contracts) (by_mode user validated adapter mode)
unfolding by_mode
by_mode-Reads user validated adapter mode =
    Reads-if _ (mode == "fixed") _ _ (capped-Reads user user.fixed_contracts) (
      Reads-if _ (mode == "alert_inferred") _ _
        (capped-Reads user (max_ℤ (pos 1) validated.quantity))
        (Reads-if _ (mode == "risk_percent") _ _ (risk_mode-Reads user validated adapter) (
          Reads-if _ (mode == "dollar_notional") _ _
            (Reads-pure _ _ (notional_mode-IsSized user validated))
            (capped-Reads user (max_ℤ (pos 1) validated.quantity)))))

quantity_from-Reads :
    (user : User) (validated : ValidatedTrade) (adapter : BrokerAdapter) (o : Option Decimal)
    → Reads (IsSized user.max_contracts) (quantity_from user validated adapter o)
unfolding quantity_from
quantity_from-Reads user validated adapter (some n) = Reads-pure _ _ (
    with_price-IsSized user.max_contracts (or_price validated.ask validated.limit_price) _ _
      (λ p. quantity_for_notional-IsSized p n user.max_contracts))
quantity_from-Reads user validated adapter none = by_mode-Reads user validated adapter _

-- Sizing changes nothing, and its result is a size of at least one contract and at most the user's
-- cap (or one), or zero with a reason to skip: in every mode, for every price, equity and request.
pub compute_quantity-Reads :
    (user : User) (validated : ValidatedTrade) (adapter : BrokerAdapter)
    → Reads (IsSized user.max_contracts) (compute_quantity user validated adapter)
unfolding compute_quantity
compute_quantity-Reads user validated adapter =
    quantity_from-Reads user validated adapter (positive validated.notional_usd)
