-- ===== src/Tests/Accounts.antt =====
-- Entitlements, sizing, market hours, trading modes and profits on concrete data.
use trade_receiver.Tables.{User}
use trade_receiver.Session.{ok, err, Error}
use trade_receiver.Admin.{
  Account, TokenClaims, is_admin, admin_update_role, require_admin, drop, count_dots,
}
use trade_receiver.Admin.Laws.{Request, after, after-HasAdmin}
use trade_receiver.Prelude.Text.{starts_with, strip, lstrip, rstrip}
use trade_receiver.Settings.{
  UserSettings, validate, blank_prompt_to_none, text_length, get_settings, update_settings,
}
use trade_receiver.Settings.Laws.{IsRefused, get_settings-update_settings}
use trade_receiver.Prelude.{
  any, Option, String, true, false, none, some, List, [], ◌∷◌, ◌≡◌, ◌≢◌, ◌⊎◌, eq_iff, ◌↔◌, arith,
  ◌*◌, refl,
}
use trade_receiver.Prelude.Int.{pos}
use trade_receiver.Trade.{buy_to_open}
use trade_receiver.Tables.{Subscription, TradeExecution, filled}
use trade_receiver.Session.Rules.{Reads}
use trade_receiver.Entitlements.{can_process_trades, grant_subscription}
use trade_receiver.Entitlements.Laws.{
  IsEntitled, KeyAfter, can_process_trades_iff, grant_subscription_lem,
}
use trade_receiver.Execution.{effective_mode, execution_row}
use trade_receiver.Execution.Modes.{effective_mode-live_iff}
use trade_receiver.Orders.Pnl.{Opens, no_opens, pnl_of, compute_close_pnl}
use trade_receiver.Orders.Pnl.Laws.{AddsUp, compute_close_pnl-AddsUp}
use trade_receiver.Sizing.{quantity_for_notional, quantity_for_risk, compute_quantity}
use trade_receiver.Sizing.Laws.{
  IsBudgetSize, IsSized, quantity_for_notional-IsBudgetSize, quantity_for_risk-IsBudgetSize,
  compute_quantity-Reads,
}
use trade_receiver.Tables.{broker_payload}
use trade_receiver.Samples.{trader, spy_trade, broker}

can_process_trades_iff_example : (can_process_trades 100 trader ≡ true) ↔ IsEntitled 100 trader
can_process_trades_iff_example = can_process_trades_iff 100 trader

grant_subscription_lem_example :
    let granted = grant_subscription 100 trader "cancelled" "pro" none (some 50) false in
    ((sub : Subscription) × (granted.subscription ≡ some sub)
      × (sub.status ≡ "cancelled")
      × (sub.plan_name ≡ "pro")
      × (sub.ends_at ≡ some 50)
      × (sub.renews_at ≡ none))
    × KeyAfter 100 trader granted false
grant_subscription_lem_example =
    grant_subscription_lem 100 trader "cancelled" "pro" none (some 50) false

effective_mode-live_iff_example :
    (effective_mode trader ≡ "live")
    ↔ ((trader.default_mode ≡ "live") × (trader.live_trading_enabled ≡ true))
effective_mode-live_iff_example = effective_mode-live_iff trader

quantity_for_notional-IsBudgetSize_example :
    IsBudgetSize
      (25000 * 100)
      10000000
      (pos 10)
      (quantity_for_notional (pos 25000) (pos 10000000) (pos 10))
quantity_for_notional-IsBudgetSize_example =
    quantity_for_notional-IsBudgetSize 25000 10000000 (pos 10) (omega arith)

quantity_for_risk-IsBudgetSize_example :
    IsBudgetSize
      (100000000 * 25000)
      (500000000 * 20000)
      (pos 10)
      (quantity_for_risk (pos 500000000) (pos 20000) (pos 25000) (pos 10))
quantity_for_risk-IsBudgetSize_example =
    quantity_for_risk-IsBudgetSize 500000000 20000 25000 (pos 10) (omega arith)

compute_quantity-Reads_example :
    Reads (IsSized (pos 5)) (compute_quantity trader (spy_trade buy_to_open) broker)
compute_quantity-Reads_example = compute_quantity-Reads trader (spy_trade buy_to_open) broker

abbrev spy_symbol : String
spy_symbol = "SPY C500"

spy_named : spy_symbol ≢ ""
spy_named e = ground (arith, eq_iff spy_symbol "")

abbrev other_trader : User
other_trader = record trader { id = "u2" }

abbrev rows : List TradeExecution
rows =
    record (execution_row trader 1 (spy_trade buy_to_open) filled (broker_payload none none) 7) {
      fill_price = some (pos 11000);
    }
    ∷ (execution_row trader 1 (spy_trade buy_to_open) filled (broker_payload none none) 8
        ∷ (record (execution_row other_trader 1 (spy_trade buy_to_open) filled
              (broker_payload none none) 9) { fill_price = some (pos 90000) }
            ∷ []))

-- the second row has no price, the third is another user's
compute_close_pnl-AddsUp_example :
    (o : Opens) × AddsUp "u1" "SPY C500" rows no_opens o
    × (compute_close_pnl rows "u1" "SPY C500" (pos 2) (some (pos 15000))
        ≡ pnl_of o (pos 2) (pos 15000))
compute_close_pnl-AddsUp_example =
    compute_close_pnl-AddsUp rows "u1" "SPY C500" (pos 2) (pos 15000) spy_named

abbrev wanted : UserSettings
wanted = record {
  default_mode = "paper";
  max_contracts = pos 3;
  allowed_tickers = some "SPY";
  live_trading_enabled = false;
  sizing_mode = "fixed";
  fixed_contracts = pos 2;
  risk_percent = pos 10000;
  default_broker = none;
  trade_filter_prompt = some " only calls ";
}

abbrev accepted_settings : UserSettings
accepted_settings = record wanted { trade_filter_prompt = some "only calls" }

wanted_accepted : validate wanted ≡ ok accepted_settings
unfolding validate blank_prompt_to_none text_length strip lstrip rstrip
wanted_accepted = refl

-- the user's broker stays
abbrev at_tradier : User
at_tradier = record trader { default_broker = some "tradier" }

get_settings-update_settings_example :
    let (answer, user') = update_settings accepted_settings at_tradier in
    ((answer ≡ ok accepted_settings)
      × (get_settings user' ≡ ok (record accepted_settings { default_broker = some "tradier" })))
    ⊎ (IsRefused accepted_settings × (user' ≡ at_tradier) × ((e : Error) × (answer ≡ err e)))
get_settings-update_settings_example =
    get_settings-update_settings wanted at_tradier accepted_settings wanted_accepted

abbrev boss : Account
boss = record { id = "a1"; email = "boss@x.io"; role = "admin" }

abbrev member : Account
member = record { id = "a2"; email = "m@x.io"; role = "user" }

-- every token is the administrator's
abbrev verify : String → Option TokenClaims
verify token = some (record { sub = "a1"; email = "" })

-- the member becomes an administrator, and the administrator asks to be none
abbrev changes : List Request
changes =
    record { authorization = "Bearer h.p.s"; user_id = "a2"; role = "admin" }
    ∷ (record { authorization = "Bearer h.p.s"; user_id = "a1"; role = "user" } ∷ [])

changed :
    after verify changes (boss ∷ (member ∷ [])) ≡ boss ∷ (record member { role = "admin" } ∷ [])
unfolding admin_update_role require_admin drop count_dots starts_with strip lstrip rstrip
changed = refl

after-HasAdmin_example : any is_admin (after verify changes (boss ∷ (member ∷ []))) ≡ true
after-HasAdmin_example = after-HasAdmin verify changes (boss ∷ (member ∷ [])) refl
