-- ===== src/Validation/Laws.antt =====
-- What an accepted trade guarantees.
use mathlib.Core.Path.{subst}
use trade_receiver.Prelude.{
  String, Bool, true, false, Option, none, some, List, [], ◌∷◌, ◌++◌, ◌≡◌, ◌≢◌, ◌⊎◌, inl, inr,
  arith, eq_iff, refl, if◌then◌else◌, not, ◌&&◌,
}
use trade_receiver.Prelude.Int.{ℤ, pos, Decimal, ◌<ℤ◌, ◌≤ℤ◌, ◌*ℤ◌, ◌-ℤ◌, ltb_ℤ, leb_ℤ, ltb_ℤ→le}
use trade_receiver.Trade.{
  Date, TradeIntent, ValidatedTrade, OptionContract, ValidationError, invalid_strike,
}
use trade_receiver.Session.{Session, Result, ok, err, lift, pure, ◌>>=◌}
use trade_receiver.Broker.{BrokerAdapter}
use trade_receiver.Validation.Chain.{match_exact_contract}
use trade_receiver.Validation.Chain.Laws.{
  IsEligible, match_exact_contract_sound, closest_contract_sound,
}
use trade_receiver.Validation.{
  when, intent_errors, choose_contract, interest_errors, spread_errors, contract_errors,
  fill_contract, validated_with, validate_trade, expiration_errors, expiration_or, or_closest,
}

append-eq-nil : (xs ys : List ValidationError) → xs ++ ys ≡ [] → (xs ≡ []) × (ys ≡ [])
append-eq-nil [] ys h = (cc, h)
append-eq-nil (x ∷ xs) ys h = cc

intent_errors-eq-nil :
    (intent : TradeIntent)
    → intent_errors intent ≡ []
    → ((d : Date) × (intent.expiration ≡ some d))
      × (pos 0 <ℤ intent.strike)
      × (intent.underlying ≢ "")
unfolding intent_errors
intent_errors-eq-nil intent h =
    let (e1, rest) = append-eq-nil (expiration_errors intent.expiration) _ h in
    let (e2, e3) = append-eq-nil (when (leb_ℤ intent.strike (pos 0)) invalid_strike) _ rest in
    (ground arith, ground arith, ground (arith, eq_iff intent.underlying ""))

or_closest_cases :
    (o p : Option OptionContract) (c : OptionContract)
    → or_closest o p ≡ some c
    → (o ≡ some c) ⊎ (p ≡ some c)
or_closest_cases none p c h = inr h
or_closest_cases (some d) p c h = inl h

if_some :
    (b : Bool) (o : Option OptionContract) (c : OptionContract)
    → (if b then o else none) ≡ some c
    → o ≡ some c
if_some true o c h = h
if_some false o c h = cc

choose_contract-IsEligible :
    (contracts : List OptionContract) (intent : TradeIntent) (exp : Date) (c : OptionContract)
    → choose_contract contracts intent exp ≡ some c
    → IsEligible contracts intent.underlying intent.option_type c
unfolding choose_contract
choose_contract-IsEligible contracts intent exp c h =
    elim (or_closest_cases
      (match_exact_contract contracts intent.underlying intent.option_type intent.strike exp) _ c
      h) [
        | inl exact ↦ (match_exact_contract_sound contracts _ _ _ _ c exact).0
        | inr close ↦
            (closest_contract_sound contracts _ _ _ _ c
              (if_some (ltb_ℤ (pos 0) intent.strike) _ c close)).0
      ]

-- What the default limits let pass: no negative open interest where one is given, and a spread of at
-- most half the bid where a positive bid and an ask that is not zero are quoted.
abbrev pub IsWithinLimits : OptionContract → Type 0
IsWithinLimits c =
    ((oi : ℤ) → c.open_interest ≡ some oi → pos 0 ≤ℤ oi)
    × ((bid ask : Decimal)
        → c.bid ≡ some bid
        → c.ask ≡ some ask
        → pos 0 <ℤ bid
        → ask ≢ pos 0
        → (ask -ℤ bid) *ℤ pos 1000000 ≤ℤ pos 500000 *ℤ bid)

interest-eq-nil : (oi : ℤ) → interest_errors (pos 0) (some oi) ≡ [] → pos 0 ≤ℤ oi
interest-eq-nil oi h = ground arith

when-eq-nil : (b : Bool) (e : ValidationError) → when b e ≡ [] → b ≡ false
when-eq-nil true e h = cc
when-eq-nil false e h = refl

third_false : (a b c : Bool) → (a && b && c) ≡ false → a ≡ true → b ≡ true → c ≡ false
third_false a b c h p q = ground arith

nonzero_test : (a : Decimal) → a ≢ pos 0 → not (leb_ℤ a (pos 0) && leb_ℤ (pos 0) a) ≡ true
nonzero_test a h = ground arith

spread-eq-nil :
    (bid ask : Decimal)
    → spread_errors (pos 500000) (some bid) (some ask) ≡ []
    → pos 0 <ℤ bid
    → ask ≢ pos 0
    → (ask -ℤ bid) *ℤ pos 1000000 ≤ℤ pos 500000 *ℤ bid
spread-eq-nil bid ask h hb ha =
    ltb_ℤ→le (pos 500000 *ℤ bid) ((ask -ℤ bid) *ℤ pos 1000000)
      (third_false (ltb_ℤ (pos 0) bid) _ _ (when-eq-nil _ _ h) (ground arith) (nonzero_test ask ha))

contract_errors-eq-nil :
    (contract : Option OptionContract)
    → contract_errors (pos 0) (pos 500000) contract ≡ []
    → (c : OptionContract) × (contract ≡ some c) × IsWithinLimits c
unfolding contract_errors
contract_errors-eq-nil none h = cc
contract_errors-eq-nil (some c) h =
    let (e1, e2) = append-eq-nil (interest_errors (pos 0) c.open_interest) _ h in
    (
      c,
      refl,
      (
        λ oi e. interest-eq-nil oi (rw e at e1),
        λ bid ask eb ea hb ha. spread-eq-nil bid ask (rw (eb, ea) at e2) hb ha,
      ),
    )

-- What a trade without validation errors guarantees of the intent and of the chain that it came from.
pub record IsAccepted (contracts : List OptionContract) (intent : TradeIntent)
    (trade : ValidatedTrade) : Type 0 where
  pub dated : (d : Date) × (intent.expiration ≡ some d)
  pub positive_strike : pos 0 <ℤ intent.strike
  pub named : intent.underlying ≢ ""
  pub contract : OptionContract
  pub eligible : IsEligible contracts intent.underlying intent.option_type contract
  pub within_limits : IsWithinLimits contract
  pub same_symbol : trade.contract_symbol ≡ contract.symbol
  pub same_strike : trade.strike ≡ contract.strike
  pub same_expiration : trade.expiration ≡ contract.expiration
  pub same_quotes : (trade.bid ≡ contract.bid) × (trade.ask ≡ contract.ask)
  pub same_action : trade.action ≡ intent.action
  pub same_quantity : trade.quantity ≡ intent.quantity

validated_with-IsAccepted :
    (contracts : List OptionContract) (intent : TradeIntent) (broker_name : String) (exp : Date)
    → (validated_with intent broker_name exp
        (choose_contract contracts intent exp)).validation_errors
      ≡ []
    → IsAccepted contracts intent
        (validated_with intent broker_name exp (choose_contract contracts intent exp))
unfolding validated_with fill_contract
validated_with-IsAccepted contracts intent broker_name exp h =
    let (e1, e2) = append-eq-nil (intent_errors intent) _ h in
    let (dated, strike, named) = intent_errors-eq-nil intent e1 in
    let (c, chosen, within_limits) =
      contract_errors-eq-nil (choose_contract contracts intent exp) e2 in
    record {
      dated = dated;
      positive_strike = strike;
      named = named;
      contract = c;
      eligible = choose_contract-IsEligible contracts intent exp c chosen;
      within_limits = within_limits;
      same_symbol = rw chosen;
      same_strike = rw chosen;
      same_expiration = rw chosen;
      same_quotes = (rw chosen, rw chosen);
      same_action = rw chosen;
      same_quantity = rw chosen;
    }

-- The trade that a validation returns without errors comes from the chain that the broker answered
-- for the intent's underlying and expiration: its contract is listed there, has the intent's type and
-- an allowed underlying, and the trade carries its symbol, strike, expiration and quotes. The contract
-- has no negative open interest and, where it quotes a positive bid and an ask that is not zero, a
-- spread of at most half the bid. The intent has an expiration, a positive strike and an underlying.
pub validate_trade-IsAccepted :
    (today : Date) (intent : TradeIntent) (broker_name : String) (adapter : BrokerAdapter)
    (s : Session) (trade : ValidatedTrade)
    → (validate_trade today intent broker_name adapter s).0 ≡ ok trade
    → trade.validation_errors ≡ []
    → (contracts : List OptionContract) × (adapter.get_option_chain s.orders intent.underlying
          (expiration_or today intent.expiration)
        ≡ ok contracts)
      × IsAccepted contracts intent trade
unfolding validate_trade
validate_trade-IsAccepted today intent broker_name adapter s trade h clean =
    from_answer (adapter.get_option_chain s.orders intent.underlying exp) refl h
  where
    exp : Date
    exp = expiration_or today intent.expiration

    from_answer :
        (r : Result (List OptionContract))
        → adapter.get_option_chain s.orders intent.underlying exp ≡ r
        → ((lift r >>= λ contracts.
              pure (validated_with intent broker_name exp (choose_contract contracts intent exp)))
            s).0
          ≡ ok trade
        → (contracts : List OptionContract) × (adapter.get_option_chain s.orders intent.underlying
              exp
            ≡ ok contracts)
          × IsAccepted contracts intent trade
    from_answer (ok contracts) e k =
        let same : validated_with intent broker_name exp (choose_contract contracts intent exp)
            ≡ trade =
          cc in
        (
          contracts,
          e,
          subst (IsAccepted contracts intent) same
              (validated_with-IsAccepted contracts intent broker_name exp (rw same clean)),
        )
    from_answer (err x) e k = cc
