-- ===== src/Orders.antt =====
-- app/services/position_check.py and app/services/order_lifecycle.py: closing checks, fills and
-- realized profit. Money is in ten-thousandths; `round(x, 2)` rounds exact halves to even.
pub mod Fill
pub mod Pnl
pub mod Reconcile
use trade_receiver.Prelude.{
  ℕ, ◌/◌, String, Bool, true, false, Option, none, some, List, ◌==◌, if◌then◌else◌, find,
}
use trade_receiver.Prelude.Int.{ℤ, pos, negsuc, Decimal, leb_ℤ, ltb_ℤ, pos_part}
use trade_receiver.Tables.{Reason, no_open_position, close_exceeds_position}
use trade_receiver.Session.{M, ◌>>=◌, pure, lift}
use trade_receiver.Broker.{BrokerAdapter, Position}

-- the quantity of the first position with the symbol
abbrev pub held_quantity : Option Position → Decimal
held_quantity none = pos 0
held_quantity (some p) = p.quantity

-- `int(held)` of a positive amount
abbrev pub whole : Decimal → ℤ
whole held = pos (pos_part held / 10000)

unfoldable pub close_error : String → ℤ → Decimal → Option Reason
close_error contract_symbol quantity held =
    if leb_ℤ held (pos 0)
    then some (no_open_position contract_symbol)
    else if ltb_ℤ (whole held) quantity
    then some (close_exceeds_position quantity (whole held))
    else none

unfoldable pub positions : BrokerAdapter → M (List Position)
positions adapter s = lift (adapter.get_positions s.orders) s

unfoldable pub validate_close_position : BrokerAdapter → String → ℤ → M (Option Reason)
unfolding positions
validate_close_position adapter contract_symbol quantity = do
  ps ← positions adapter
  pure (
      close_error contract_symbol quantity
        (held_quantity (find (λ p. p.symbol == contract_symbol) ps)))
