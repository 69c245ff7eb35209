-- ===== src/Tests/Brokers.antt =====
-- Orders at brokers that accept everything, and an account with two positions.
use trade_receiver.Prelude.{String, List, true, none, some, [], ◌∷◌, ◌≡◌, refl, inl, length}
use trade_receiver.Prelude.Int.{pos}
use trade_receiver.Prelude.Text.{contains, starts_with}
use trade_receiver.Session.{ok}
use trade_receiver.Broker.{Position}
use trade_receiver.Json.{
  Json, Fields, string, number, array, object, nil, cons, end, field, get_or, iterate,
}
use trade_receiver.Http.{Http, request, read_body}
use trade_receiver.Tradier
use trade_receiver.Tradier.{
  TradierAdapter, Form, live, sandbox, make_adapter, normalize_tradier_environment, post_order,
  post_leg, order_id_of, read_order, leg_id_of, read_leg, tradier_api_base,
}
use trade_receiver.Tradier.Account.{positions_of, read_positions, read_position}
use trade_receiver.Tradier.Laws.{entry_call, leg_call}
use trade_receiver.Tradier.Positions.{length-positions_of}
use trade_receiver.Schwab
use trade_receiver.Schwab.{SchwabAdapter, Post}
use trade_receiver.Execution.{effective_mode}
use trade_receiver.LiveTrading.{live_trading_off}
use trade_receiver.Samples.{spy_call, trader}

abbrev seven : Json
seven = number "7" (pos 70000)

abbrev order_seven : Json
order_seven = object (field "order" (object (field "id" seven end)) end)

-- every call is answered with the order 7
abbrev accepting : {B : Type 0} → Http B
accepting = record {
  answer =
      λ calls call. ok (record { status_code = 200; has_content = true; json = ok order_seven });
  show = λ j. "{…}";
  read_decimal = λ t. ok (pos 0);
  read_int = λ t. ok (pos 0);
  read_date = λ t. ok 20;
  isoformat = λ day. "2026-01-20";
}

abbrev tradier_live : TradierAdapter
tradier_live = record { access_token = "t"; account_id = "A1"; base = tradier_api_base live }

abbrev schwab : SchwabAdapter
schwab = record { access_token = "t"; account_hash = "H1"; refresh_token = ""; expires_at = none }

-- the entry and the leg
both_sent :
    (Tradier.place_order_with_take_profit accepting tradier_live spy_call
      (pos 2)
      "buy_to_open"
      "live"
      (pos 15000)
      []).1
    ≡ entry_call tradier_live spy_call (pos 2) "buy_to_open"
      ∷ (leg_call tradier_live spy_call (pos 2) (pos 15000) ∷ [])
unfolding Tradier.place_order_with_take_profit Tradier.place_order post_order post_leg request
    read_body read_order order_id_of read_leg leg_id_of get_or contains starts_with tradier_api_base
both_sent = refl

made_live : make_adapter "" (some "t") (some "A1") (some "live") ≡ ok tradier_live
unfolding make_adapter normalize_tradier_environment
made_live = refl

live_trading_off_example :
    let mode = effective_mode trader in
    ((Schwab.place_order accepting schwab spy_call (pos 2) "buy_to_open" mode []).1 ≡ [])
    × ((Schwab.place_order_with_take_profit accepting schwab spy_call
          (pos 2)
          "buy_to_open"
          mode
          (pos 15000)
          []).1
        ≡ [])
    × ((Tradier.place_order accepting tradier_live spy_call (pos 2) "buy_to_open" mode []).1 ≡ [])
    × ((Tradier.place_order_with_take_profit accepting tradier_live spy_call
          (pos 2)
          "buy_to_open"
          mode
          (pos 15000)
          []).1
        ≡ [])
live_trading_off_example =
    live_trading_off trader spy_call (pos 2) "buy_to_open" (pos 15000) accepting schwab [] accepting
      "" (some "t") (some "A1") tradier_live [] refl (inl refl) made_live

-- a position of `symbol`
abbrev held : String → Json
held symbol = object (field "symbol" (string symbol) (field "quantity" seven end))

abbrev two_held : Json
two_held = array (cons (held "SPY") (cons (held "QQQ") nil))

abbrev outer : Json → Fields
outer inner = field "position" inner end

abbrev holding : Json → Fields
holding inner = field "positions" (object (outer inner)) end

abbrev found : List Position
found =
    record { symbol = "SPY"; quantity = pos 70000 }
    ∷ (record { symbol = "QQQ"; quantity = pos 70000 } ∷ [])

two_found : (positions_of accepting (some (object (holding two_held))) []).0 ≡ ok found
unfolding positions_of read_positions read_position get_or iterate
two_found = refl

length-positions_of_example : length found ≡ 2
length-positions_of_example =
    length-positions_of accepting (holding two_held) (outer two_held) two_held [] found refl refl
      two_found
