-- ===== src/Tradier/Account.antt =====
-- What the adapter of app/brokers/tradier.py asks of an account: its number, the option chain,
-- equity, positions and the status of an order. A symbol is taken as its text,
-- and the kind of a position, "asset_type", which no modelled code reads, is not kept.
use Prim.Native.String.{◌++◌ as append}
use trade_receiver.Prelude.{String, Option, none, some, List, [], ◌∷◌, ◌==◌, ◌||◌, if◌then◌else◌}
use trade_receiver.Prelude.Int.{pos, Decimal}
use trade_receiver.Prelude.Text.{upper}
use trade_receiver.Trade.{Date, OptionContract, OptionType, call, put}
use trade_receiver.Session.{ok}
use trade_receiver.Broker.{Position}
use trade_receiver.Json.{
  Json, number, string, array, object, nil, cons, end, get, get_or, or_else, is_true, is_object,
  str, iterate,
}
use trade_receiver.Http.{
  Http, Net, ◌>>=◌, pure, lift, fetch, decimal_of, int_of, unless_null, if_true,
}
use trade_receiver.Tradier.{TradierAdapter, Form}

abbrev account_url : TradierAdapter → String → String
account_url a rest = append a.base (append "/accounts/" (append a.account_id rest))

abbrev zero_json : Json
zero_json = number "0" (pos 0)

abbrev empty_object : Json
empty_object = object end

-- one account may come without a list around it
abbrev listed : Json → Json
listed (object fs) = array (cons (object fs) nil)
listed j = j

unfoldable pub account_number : Http Form → Json → Net Form (Option String)
account_number http account = do
  account_number ← lift (get "account_number" account)
  id ← lift (get "id" account)
  pure (some (str http.show (or_else (or_else account_number id) (string ""))))

unfoldable pub first_account : Http Form → List Json → Net Form (Option String)
unfolding account_number
first_account http [] = pure none
first_account http (account ∷ accounts) =
    if is_object account then account_number http account else pure none

unfoldable pub read_profile : Http Form → Option Json → Net Form (Option String)
unfolding first_account
read_profile http none = pure none
read_profile http (some data_json) = do
  profile ← lift (get_or "profile" empty_object data_json)
  accounts ← lift (get_or "account" (array nil) profile)
  items ← lift (if is_true (listed accounts) then iterate (listed accounts) else ok [])
  first_account http items

unfoldable pub fetch_primary_account_id : Http Form → TradierAdapter → Net Form (Option String)
unfolding fetch read_profile
fetch_primary_account_id http a = do
  answer ← fetch http (append a.base "/user/profile") []
  read_profile http answer

abbrev is_call : Json → OptionType
is_call (string s) = if s == "call" then call else put
is_call _ = put

unfoldable pub read_contract : Http Form → String → Json → Net Form OptionContract
read_contract http underlying opt = do
  symbol ← lift (get_or "symbol" (string "") opt)
  option_type ← lift (get "option_type" opt)
  strike_json ← lift (get_or "strike" zero_json opt)
  strike ← lift (decimal_of http strike_json)
  day ← lift (get_or "expiration_date" (string "1970-01-01") opt)
  expiration ← lift (http.read_date (str http.show day))
  bid_json ← lift (get "bid" opt)
  bid ← lift (unless_null (decimal_of http) bid_json)
  ask_json ← lift (get "ask" opt)
  ask ← lift (unless_null (decimal_of http) ask_json)
  interest_json ← lift (get "open_interest" opt)
  open_interest ← lift (if_true (int_of http) interest_json)
  pure (record {
    symbol = str http.show symbol;
    underlying = upper underlying;
    option_type = is_call option_type;
    strike = strike;
    expiration = expiration;
    bid = bid;
    ask = ask;
    open_interest = open_interest;
  })

unfoldable pub read_contracts : Http Form → String → List Json → Net Form (List OptionContract)
unfolding read_contract
read_contracts http underlying [] = pure []
read_contracts http underlying (opt ∷ opts) = do
  contract ← read_contract http underlying opt
  contracts ← read_contracts http underlying opts
  pure (contract ∷ contracts)

unfoldable pub read_chain : Http Form → String → Option Json → Net Form (List OptionContract)
unfolding read_contracts
read_chain http underlying none = pure []
read_chain http underlying (some data_json) = do
  options ← lift (get_or "options" empty_object data_json)
  option ← lift (get_or "option" (array nil) options)
  opts ← lift (iterate (or_else option (array nil)))
  read_contracts http underlying opts

abbrev chain_params : Http Form → String → Option Date → List (String × String)
chain_params http underlying none = ("symbol", upper underlying) ∷ []
chain_params http underlying (some day) =
    ("symbol", upper underlying) ∷ (("expiration", http.isoformat day) ∷ [])

unfoldable pub get_option_chain :
    Http Form → TradierAdapter → String → Option Date → Net Form (List OptionContract)
unfolding fetch read_chain
get_option_chain http a underlying expiration = do
  answer ←
      fetch http (append a.base "/markets/options/chains") (chain_params http underlying expiration)
  read_chain http underlying answer

unfoldable pub read_equity : Http Form → Option Json → Net Form (Option Decimal)
read_equity http none = pure none
read_equity http (some data_json) = do
  balances ← lift (get_or "balances" empty_object data_json)
  equity ← lift (get "total_equity" balances)
  cash ← lift (get "total_cash" balances)
  lift (unless_null (decimal_of http) (or_else equity cash))

unfoldable pub get_account_equity : Http Form → TradierAdapter → Net Form (Option Decimal)
unfolding fetch read_equity
get_account_equity http a =
    if a.account_id == ""
    then pure none
    else (do answer ← fetch http (account_url a "/balances") []; read_equity http answer)

unfoldable pub read_position : Http Form → Json → Net Form Position
read_position http entry = do
  symbol ← lift (get_or "symbol" (string "") entry)
  quantity_json ← lift (get "quantity" entry)
  quantity ← lift (decimal_of http (or_else quantity_json zero_json))
  pure (record { symbol = str http.show symbol; quantity = quantity })

-- what is no dictionary is left out
unfoldable pub read_positions : Http Form → List Json → Net Form (List Position)
unfolding read_position
read_positions http [] = pure []
read_positions http (entry ∷ rest) =
    if is_object entry
    then (do
      position ← read_position http entry
      positions ← read_positions http rest
      pure (position ∷ positions))
    else read_positions http rest

unfoldable pub positions_of : Http Form → Option Json → Net Form (List Position)
unfolding read_positions
positions_of http none = pure []
positions_of http (some data_json) = do
  outer ← lift (get_or "positions" empty_object data_json)
  inner ← lift (get_or "position" (array nil) outer)
  items ← lift (iterate (or_else inner (array nil)))
  read_positions http items

unfoldable pub get_positions : Http Form → TradierAdapter → Net Form (List Position)
unfolding fetch positions_of
get_positions http a =
    if a.account_id == ""
    then pure []
    else (do answer ← fetch http (account_url a "/positions") []; positions_of http answer)

-- the status in upper case, and the order that it was read from
unfoldable pub read_status : Http Form → Option Json → Net Form (Option (String × Json))
read_status http none = pure none
read_status http (some data_json) = do
  order ← lift (get_or "order" data_json data_json)
  status ← lift (get_or "status" (string "") order)
  pure (some (upper (str http.show status), order))

unfoldable pub get_order_status :
    Http Form → TradierAdapter → String → Net Form (Option (String × Json))
unfolding fetch read_status
get_order_status http a order_id = if a.account_id == "" || order_id == "" then pure none else (do
  answer ← fetch http (account_url a (append "/orders/" order_id)) []
  read_status http answer)
