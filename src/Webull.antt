-- ===== src/Webull.antt =====
-- app/brokers/webull.py: an adapter that places nothing; `webull_enabled` is a setting.
use Prim.Native.String.{◌++◌ as append}
use trade_receiver.Prelude.{String, Bool, Option, none, some, ◌==◌, ◌&&◌, if◌then◌else◌}
use trade_receiver.Prelude.Int.{ℤ, pos, Decimal}
use trade_receiver.Trade.{OptionContract, OrderResult}
use trade_receiver.Tradier.{refusal, acceptance}

abbrev pub not_enabled : OrderResult
not_enabled = refusal "Webull not enabled"

unfoldable pub place_order : OptionContract → ℤ → String → String → OrderResult
place_order contract quantity side mode = not_enabled

unfoldable pub place_order_with_take_profit :
    OptionContract → ℤ → String → String → Decimal → OrderResult
place_order_with_take_profit contract quantity side mode take_profit_price =
    refusal "Webull take-profit orders are not supported"

unfoldable pub get_account_equity : Bool → Option Decimal
get_account_equity webull_enabled = if webull_enabled then some (pos 1000000000) else none

unfoldable pub place_equity_order : Bool → String → ℤ → String → String → OrderResult
place_equity_order webull_enabled symbol quantity side mode =
    if mode == "paper" && webull_enabled
    then acceptance (append "paper-webull-" symbol)
    else not_enabled
