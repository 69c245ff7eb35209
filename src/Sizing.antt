-- ===== src/Sizing.antt =====
-- app/services/compute_quantity.py. Amounts are ten-thousandths, and `math.floor(float(a / b))` of
-- positive amounts is the quotient of the numbers.
pub mod Laws
use trade_receiver.Prelude.{
  ℕ, ◌*◌, String, Bool, true, false, not, Option, none, some, ◌==◌, ◌&&◌, if◌then◌else◌,
}
use trade_receiver.Prelude.Int.{
  ℤ, pos, Decimal, pos_part, floor_div, leb_ℤ, ltb_ℤ, eqb_ℤ, min_ℤ, max_ℤ, ◌*ℤ◌,
}
use trade_receiver.Trade.{ValidatedTrade}
use trade_receiver.Tables.{User, Reason, text}
use trade_receiver.Session.{M, ◌>>=◌, pure, lift}
use trade_receiver.Broker.{BrokerAdapter}

-- `a or b`: a zero amount counts as missing
unfoldable pub or_price : Option Decimal → Option Decimal → Option Decimal
or_price none b = b
or_price (some a) b = if eqb_ℤ a (pos 0) then b else some a

unfoldable pub cap_quantity : ℤ → ℤ → ℤ
cap_quantity quantity max_contracts = max_ℤ (pos 1) (min_ℤ quantity max_contracts)

unfoldable pub quantity_for_notional : Decimal → Decimal → ℤ → ℤ
quantity_for_notional ask notional_usd max_contracts =
    let cost_per_contract = ask *ℤ pos 100 in
    if leb_ℤ cost_per_contract (pos 0)
    then pos 1
    else let raw_qty = floor_div notional_usd (pos_part cost_per_contract) in
      cap_quantity (max_ℤ (pos 1) raw_qty) max_contracts

-- the price that a sizing rule needs, or why it skips
abbrev pub with_price : Option Decimal → String → (Decimal → ℤ) → ℤ × Option Reason
with_price none missing size = (pos 0, some (text missing))
with_price (some price) missing size =
    if leb_ℤ price (pos 0) then (pos 0, some (text missing)) else (size price, none)

-- `equity * risk_percent / 100` over `price * 100`; `risk_percent` is itself in ten-thousandths
unfoldable pub quantity_for_risk : Decimal → Decimal → Decimal → ℤ → ℤ
quantity_for_risk equity risk_percent price max_contracts =
    let raw_qty = floor_div (equity *ℤ risk_percent) (100000000 * pos_part price) in
    cap_quantity (max_ℤ (pos 1) raw_qty) max_contracts

unfoldable pub risk_quantity : User → Option Decimal → Option Decimal → ℤ × Option Reason
risk_quantity user none price =
    (pos 0, some (text "unable to fetch account equity for risk-based sizing"))
risk_quantity user (some equity) price =
    if leb_ℤ equity (pos 0)
    then (pos 0, some (text "unable to fetch account equity for risk-based sizing"))
    else with_price price "missing option price for risk-based sizing"
        λ p. quantity_for_risk equity user.risk_percent p user.max_contracts

-- `validated.notional_usd is not None and validated.notional_usd > 0`
abbrev pub positive : Option Decimal → Option Decimal
positive none = none
positive (some n) = if ltb_ℤ (pos 0) n then some n else none

-- `await adapter.get_account_equity()`
unfoldable pub account_equity : BrokerAdapter → M (Option Decimal)
account_equity adapter s = lift (adapter.get_account_equity s.orders) s

unfoldable pub by_mode : User → ValidatedTrade → BrokerAdapter → String → M (ℤ × Option Reason)
by_mode user validated adapter mode =
    if mode == "fixed"
    then pure (cap_quantity user.fixed_contracts user.max_contracts, none)
    else if mode == "alert_inferred"
    then pure (cap_quantity (max_ℤ (pos 1) validated.quantity) user.max_contracts, none)
    else if mode == "risk_percent"
    then (do
      equity ← account_equity adapter
      pure (risk_quantity user equity (or_price validated.ask validated.limit_price)))
    else if mode == "dollar_notional"
    then pure (
        with_price (or_price validated.ask validated.limit_price)
          "missing option price for dollar notional sizing"
          λ p. quantity_for_notional p (pos 10000000) user.max_contracts)
    else pure (cap_quantity (max_ℤ (pos 1) validated.quantity) user.max_contracts, none)

-- `notional_usd`, where it is positive, goes before the mode
unfoldable pub quantity_from :
    User → ValidatedTrade → BrokerAdapter → Option Decimal → M (ℤ × Option Reason)
quantity_from user validated adapter (some notional) = pure (
    with_price (or_price validated.ask validated.limit_price)
      "missing option price for notional sizing"
      λ p. quantity_for_notional p notional user.max_contracts)
quantity_from user validated adapter none =
    by_mode user validated adapter
      (if user.sizing_mode == "" then "alert_inferred" else user.sizing_mode)

unfoldable pub compute_quantity : User → ValidatedTrade → BrokerAdapter → M (ℤ × Option Reason)
unfolding quantity_from
compute_quantity user validated adapter =
    quantity_from user validated adapter (positive validated.notional_usd)
