-- ===== src/Execution/Modes.antt =====
-- The mode in which an order goes out.
use trade_receiver.Prelude.{true, ◌≡◌, ◌↔◌, arith, eq_iff}
use trade_receiver.Tables.{User}
use trade_receiver.Execution.{effective_mode}

-- The mode is "live" exactly when the user's default mode is "live" and live trading is enabled.
pub effective_mode-live_iff :
    (user : User)
    → (effective_mode user ≡ "live")
      ↔ ((user.default_mode ≡ "live") × (user.live_trading_enabled ≡ true))
unfolding effective_mode
effective_mode-live_iff user =
    ground (arith, eq_iff user.default_mode "live", eq_iff "paper" "live")
