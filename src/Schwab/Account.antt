-- ===== src/Schwab/Account.antt =====
-- What the adapter of app/brokers/schwab.py asks of an account: its hash, positions, equity and the
-- status of an order. A symbol is taken as its text, and the kind of a position is not kept.
use Prim.Native.String.{◌++◌ as append}
use trade_receiver.Prelude.{
  String, Bool, not, Option, none, some, List, [], ◌∷◌, ◌++◌, ◌==◌, ◌||◌, if◌then◌else◌,
}
use trade_receiver.Prelude.Int.{pos, Decimal}
use trade_receiver.Session.{Result, ok, err, runtime_error}
use trade_receiver.Broker.{Position}
use trade_receiver.Json.{
  Json, number, string, array, object, nil, cons, end, get, get_or, or_else, is_true, str, iterate,
}
use trade_receiver.Http.{Http, Net, ◌>>=◌, pure, lift, fetch, decimal_of, unless_null}
use trade_receiver.Schwab.{SchwabAdapter, Post, trader_base}

abbrev account_url : SchwabAdapter → String
account_url a = append trader_base (append "/accounts/" a.account_hash)

abbrev positions_param : List (String × String)
positions_param = ("fields", "positions") ∷ []

abbrev empty_object : Json
empty_object = object end

-- `data[0]`, of data that is not empty
abbrev first_of : Json → Result Json
first_of (array (cons j js)) = ok j
first_of _ = err (runtime_error "KeyError")

unfoldable pub read_hash : Http Post → Option Json → Net Post (Option String)
read_hash http none = pure none
read_hash http (some data_json) = if not (is_true data_json) then pure none else (do
  first ← lift (first_of data_json)
  hash ← lift (get "hashValue" first)
  account ← lift (get "accountNumber" first)
  pure (some (str http.show (or_else (or_else hash account) (string "")))))

unfoldable pub fetch_primary_account_hash : Http Post → SchwabAdapter → Net Post (Option String)
unfolding fetch read_hash
fetch_primary_account_hash http a = if a.access_token == "" then pure none else (do
  answer ← fetch http (append trader_base "/accounts/accountNumbers") []
  read_hash http answer)

unfoldable pub read_positions : Http Post → List Json → Net Post (List Position)
read_positions http [] = pure []
read_positions http (entry ∷ rest) = do
  found ← lift (get "instrument" entry)
  symbol ← lift (get_or "symbol" (string "") (or_else found empty_object))
  long ← lift (get "longQuantity" entry)
  short ← lift (get "shortQuantity" entry)
  quantity ← lift (decimal_of http (or_else (or_else long short) (number "0" (pos 0))))
  positions ← read_positions http rest
  pure (record { symbol = str http.show symbol; quantity = quantity } ∷ positions)

unfoldable pub read_accounts : Http Post → List Json → Net Post (List Position)
unfolding read_positions
read_accounts http [] = pure []
read_accounts http (acct ∷ accts) = do
  found ← lift (get "securitiesAccount" acct)
  entries ← lift (get "positions" (or_else found empty_object))
  items ← lift (iterate (or_else entries (array nil)))
  positions ← read_positions http items
  others ← read_accounts http accts
  pure (positions ++ others)

-- `data if isinstance(data, list) else [data]`
abbrev listed : Json → Json
listed (array js) = array js
listed j = array (cons j nil)

unfoldable pub positions_of : Http Post → Option Json → Net Post (List Position)
unfolding read_accounts
positions_of http none = pure []
positions_of http (some data_json) = do
  accts ← lift (iterate (listed data_json))
  read_accounts http accts

abbrev lacks_account : SchwabAdapter → Bool
lacks_account a = a.access_token == "" || a.account_hash == ""

unfoldable pub get_positions : Http Post → SchwabAdapter → Net Post (List Position)
unfolding fetch positions_of
get_positions http a =
    if lacks_account a
    then pure []
    else (do answer ← fetch http (account_url a) positions_param; positions_of http answer)

-- `data[0] if isinstance(data, list) and data else data`
abbrev first_or : Json → Json
first_or (array (cons j js)) = j
first_or j = j

unfoldable pub read_equity : Http Post → Option Json → Net Post (Option Decimal)
read_equity http none = pure none
read_equity http (some data_json) = do
  found ← lift (get "securitiesAccount" (first_or data_json))
  current ← lift (get "currentBalances" (or_else found empty_object))
  value ← lift (get "liquidationValue" (or_else current empty_object))
  equity ← lift (get "equity" (or_else current empty_object))
  lift (unless_null (decimal_of http) (or_else value equity))

-- without an account the equity is taken to be 100000
unfoldable pub get_account_equity : Http Post → SchwabAdapter → Net Post (Option Decimal)
unfolding fetch read_equity
get_account_equity http a =
    if lacks_account a
    then pure (if a.access_token == "" then none else some (pos 1000000000))
    else (do answer ← fetch http (account_url a) positions_param; read_equity http answer)

unfoldable pub get_order_status : Http Post → SchwabAdapter → String → Net Post (Option Json)
unfolding fetch
get_order_status http a order_id =
    if a.account_hash == "" || order_id == ""
    then pure none
    else fetch http (append (account_url a) (append "/orders/" order_id)) []
