-- ===== src/LiveTrading.antt =====
-- The mode of app/services/execute_trade.py at the adapters of app/brokers: what the switch for live
-- trading keeps from the brokers.
use mathlib.Core.Path.{subst}
use trade_receiver.Prelude.{
  String, true, false, Option, some, List, ◌≡◌, ◌⊎◌, inl, inr, refl, sym, ◌==◌, ap,
}
use trade_receiver.Prelude.Int.{ℤ, Decimal}
use trade_receiver.Prelude.Text.{contains, starts_with}
use trade_receiver.Trade.{OptionContract}
use trade_receiver.Tables.{User}
use trade_receiver.Session.{ok}
use trade_receiver.Session.Rules.{guard_passed}
use trade_receiver.Http.{Call, Http}
use trade_receiver.Execution.{effective_mode}
use trade_receiver.Tradier
use trade_receiver.Schwab
use trade_receiver.Tradier.{
  TradierAdapter, Form, live, make_adapter, is_simulated, normalize_tradier_environment,
  tradier_api_base, or_empty,
}
use trade_receiver.Tradier.Laws.{ok_same, place_order-simulated, take_profit-simulated}
use trade_receiver.Schwab.{SchwabAdapter, Post}
use trade_receiver.Schwab.Laws.{orders-IsGated}

effective_mode-paper :
    (user : User)
    → user.live_trading_enabled ≡ false
    → (user.default_mode ≡ "live") ⊎ (user.default_mode ≡ "paper")
    → effective_mode user ≡ "paper"
unfolding effective_mode
effective_mode-paper user off (inl e) = rw (off, e) refl
effective_mode-paper user off (inr e) = rw (off, e) refl

live_base : contains (tradier_api_base live) "sandbox" ≡ false
unfolding contains starts_with tradier_api_base
live_base = refl

-- An adapter of the live environment simulates what is on paper.
is_simulated-make_adapter :
    (settings_base : String) (token account : Option String) (a : TradierAdapter)
    → make_adapter settings_base token account (some "live") ≡ ok a
    → is_simulated a "paper" ≡ true
unfolding make_adapter normalize_tradier_environment
is_simulated-make_adapter settings_base token account a h =
    let (e, made) = guard_passed (or_empty token == "") _ _ a h in
    rw (ap (λ x. x.base) (sym (ok_same _ a made))) (rw live_base refl)

-- A user with live trading off and a mode of the two: whatever the broker would answer, an option
-- order, with or without a take-profit price, reaches neither Schwab nor Tradier's live environment.
pub live_trading_off :
    (user : User) (contract : OptionContract) (quantity : ℤ) (side : String) (tp : Decimal)
    (schwab_http : Http Post) (s : SchwabAdapter) (schwab_calls : List (Call Post))
    (tradier_http : Http Form) (settings_base : String) (token account : Option String)
    (t : TradierAdapter) (tradier_calls : List (Call Form))
    → user.live_trading_enabled ≡ false
    → (user.default_mode ≡ "live") ⊎ (user.default_mode ≡ "paper")
    → make_adapter settings_base token account (some "live") ≡ ok t
    → let mode = effective_mode user in
      ((Schwab.place_order schwab_http s contract quantity side mode schwab_calls).1 ≡ schwab_calls)
      × ((Schwab.place_order_with_take_profit schwab_http s contract quantity side mode tp
            schwab_calls).1
          ≡ schwab_calls)
      × ((Tradier.place_order tradier_http t contract quantity side mode tradier_calls).1
          ≡ tradier_calls)
      × ((Tradier.place_order_with_take_profit tradier_http t contract quantity side mode tp
            tradier_calls).1
          ≡ tradier_calls)
live_trading_off user contract quantity side tp hs s cs ht base token account t ct off mode made =
    let paper = effective_mode-paper user off mode in
    let (single, leg, _) =
      orders-IsGated hs s contract quantity (effective_mode user) cs side tp "" in
    let simulated =
      subst (λ m. is_simulated t m ≡ true) (sym paper)
        (is_simulated-make_adapter base token account t made) in
    (
      single.on_paper paper,
      leg.on_paper paper,
      place_order-simulated ht t contract quantity side _ tp ct simulated,
      take_profit-simulated ht t contract quantity side _ tp ct simulated,
    )
