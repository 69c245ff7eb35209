-- ===== src/Validation.antt =====
-- app/services/validate_trade.py: the contract that an intent stands for, and what is wrong with it.
pub mod Chain
pub mod Laws
use trade_receiver.Prelude.{
  ℕ, ◌*◌, String, Bool, true, false, not, Option, none, some, List, [], ◌∷◌, ◌++◌, ◌==◌, ◌&&◌,
  if◌then◌else◌, eqb,
}
use trade_receiver.Prelude.Int.{ℤ, pos, Decimal, leb_ℤ, ltb_ℤ, ◌-ℤ◌, ◌*ℤ◌}
use trade_receiver.Prelude.Text.{upper}
use trade_receiver.Trade.{
  Date, TradeIntent, ValidatedTrade, OptionContract, ValidationError, missing_expiration,
  invalid_strike, missing_underlying, contract_not_found, open_interest_below, spread_exceeds,
}
use trade_receiver.Session.{M, ◌>>=◌, pure, lift}
use trade_receiver.Broker.{BrokerAdapter}
use Chain.{match_exact_contract, closest_contract}

abbrev pub when : Bool → ValidationError → List ValidationError
when true e = e ∷ []
when false e = []

abbrev pub expiration_errors : Option Date → List ValidationError
expiration_errors none = missing_expiration ∷ []
expiration_errors (some d) = []

abbrev pub expiration_or : Date → Option Date → Date
expiration_or today none = today
expiration_or today (some d) = d

unfoldable pub intent_errors : TradeIntent → List ValidationError
intent_errors intent =
    expiration_errors intent.expiration
    ++ (when (leb_ℤ intent.strike (pos 0)) invalid_strike
        ++ when (intent.underlying == "") missing_underlying)

abbrev pub or_closest : Option OptionContract → Option OptionContract → Option OptionContract
or_closest (some c) d = some c
or_closest none d = d

unfoldable pub choose_contract : List OptionContract → TradeIntent → Date → Option OptionContract
choose_contract contracts intent exp =
    or_closest
      (match_exact_contract contracts intent.underlying intent.option_type intent.strike exp)
      (if ltb_ℤ (pos 0) intent.strike
        then closest_contract contracts intent.underlying intent.option_type intent.strike exp
        else none)

abbrev pub interest_errors : ℤ → Option ℤ → List ValidationError
interest_errors min_open_interest none = []
interest_errors min_open_interest (some oi) =
    when (ltb_ℤ oi min_open_interest) (open_interest_below oi min_open_interest)

-- `(ask - bid) / bid * 100 > max_spread_pct`, multiplied out by the positive bid
abbrev pub spread_errors : Decimal → Option Decimal → Option Decimal → List ValidationError
spread_errors max_spread_pct (some bid) (some ask) =
    when
      (ltb_ℤ (pos 0) bid
        && not (leb_ℤ ask (pos 0) && leb_ℤ (pos 0) ask)
        && ltb_ℤ (max_spread_pct *ℤ bid) ((ask -ℤ bid) *ℤ pos 1000000))
      (spread_exceeds bid ask max_spread_pct)
spread_errors max_spread_pct _ _ = []

unfoldable pub contract_errors : ℤ → Decimal → Option OptionContract → List ValidationError
contract_errors min_open_interest max_spread_pct none = contract_not_found ∷ []
contract_errors min_open_interest max_spread_pct (some c) =
    interest_errors min_open_interest c.open_interest ++ spread_errors max_spread_pct c.bid c.ask

-- the trade without its contract
abbrev pub bare_trade : TradeIntent → String → Date → ValidatedTrade
bare_trade intent broker_name exp = record {
  action = intent.action;
  underlying = upper intent.underlying;
  option_type = intent.option_type;
  strike = intent.strike;
  expiration = exp;
  quantity = intent.quantity;
  order_type = intent.order_type;
  limit_price = intent.limit_price;
  confidence = intent.confidence;
  rationale = intent.rationale;
  broker = broker_name;
  contract_symbol = "";
  bid = none;
  ask = none;
  open_interest = none;
  validation_errors = [];
  take_profit_pct = intent.take_profit_pct;
  source = intent.source;
  notional_usd = intent.notional_usd;
}

unfoldable pub fill_contract : Option OptionContract → ValidatedTrade → ValidatedTrade
fill_contract none trade = trade
fill_contract (some c) trade = record trade {
  contract_symbol = c.symbol;
  strike = c.strike;
  expiration = c.expiration;
  bid = c.bid;
  ask = c.ask;
  open_interest = c.open_interest;
}

-- the defaults `min_open_interest = 0` and `max_spread_pct = 50.0`
unfoldable pub validated_with : TradeIntent → String → Date → Option OptionContract → ValidatedTrade
validated_with intent broker_name exp contract =
    let trade = fill_contract contract (bare_trade intent broker_name exp) in
    record trade {
      validation_errors = intent_errors intent ++ contract_errors (pos 0) (pos 500000) contract;
    }

unfoldable pub option_chain : BrokerAdapter → String → Date → M (List OptionContract)
option_chain adapter underlying exp s = lift (adapter.get_option_chain s.orders underlying exp) s

unfoldable pub validate_trade : Date → TradeIntent → String → BrokerAdapter → M ValidatedTrade
unfolding option_chain
validate_trade today intent broker_name adapter = do
  let exp = expiration_or today intent.expiration
  contracts ← option_chain adapter intent.underlying exp
  pure (validated_with intent broker_name exp (choose_contract contracts intent exp))
