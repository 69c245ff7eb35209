-- ===== src/Http.antt =====
-- Calls of `httpx`, as a broker's adapter makes them. `B` is what a POST sends. The network is a
-- parameter: an answer depends on the calls made so far, and may be an exception.
pub mod Laws
use trade_receiver.Prelude.{
  ℕ, String, Bool, true, false, Option, none, some, List, [], ◌∷◌, ◌++◌, leb, suc, ◌/◌,
  if◌then◌else◌,
}
use trade_receiver.Prelude.Int.{ℤ, pos, negsuc, ◌-ℤ◌, Decimal}
use trade_receiver.Trade.{Date}
use trade_receiver.Session.{Result, ok, err, Error}
use trade_receiver.Json.{Json, null, number, object, end, is_true, str}

pub data Call (B : Type 0) : Type 0 where
  get_call : String → List (String × String) → Call B
  post_call : String → B → Call B

-- An answer: its status, whether it has content, and what `resp.json()` gives or raises.
pub record Response : Type 0 where
  pub status_code : ℕ
  pub has_content : Bool
  pub json : Result Json

-- The network, and what Python's library reads of texts: `str` of lists and dictionaries, `Decimal`,
-- `int`, `date.fromisoformat` and `isoformat`.
pub record Http (B : Type 0) : Type 0 where
  pub answer : List (Call B) → Call B → Result Response
  pub show : Json → String
  pub read_decimal : String → Result Decimal
  pub read_int : String → Result ℤ
  pub read_date : String → Result Date
  pub isoformat : Date → String

-- An action is told the calls so far, and returns or raises after more of them.
abbrev pub Net : Type 0 → Type 0 → Type 0
Net B A = List (Call B) → Result A × List (Call B)

-- `resp.json() if resp.content else {}`
abbrev pub body_of : Response → Result Json
body_of resp = if resp.has_content then resp.json else ok (object end)

abbrev pub is_failure : Response → Bool
is_failure resp = leb 400 resp.status_code

-- `Decimal(str(value))`, and `float(value)`
abbrev pub decimal_of : {B : Type 0} → Http B → Json → Result Decimal
decimal_of http (number t v) = ok v
decimal_of http j = http.read_decimal (str http.show j)

-- `int(value)`: a number is cut off towards zero
abbrev pub int_of : {B : Type 0} → Http B → Json → Result ℤ
int_of http (number t (pos n)) = ok (pos (n / 10000))
int_of http (number t (negsuc n)) = ok (pos 0 -ℤ pos (suc n / 10000))
int_of http j = http.read_int (str http.show j)

-- `f(value) if value is not None else None`
abbrev pub unless_null : {A : Type 0} → (Json → Result A) → Json → Result (Option A)
unless_null f null = ok none
unless_null f j = elim (f j) [ err e ↦ err e | ok a ↦ ok (some a) ]

-- `f(value) if value else None`
abbrev pub if_true : {A : Type 0} → (Json → Result A) → Json → Result (Option A)
if_true f j = if is_true j then unless_null f j else ok none

module _ {B : Type 0} where
  infixl 5 ◌>>=◌
  abbrev pub ◌>>=◌ : {A C : Type 0} → Net B A → (A → Net B C) → Net B C
  ◌>>=◌ m f calls =
      let (r, calls') = m calls in elim r [ ok a ↦ f a calls' | err e ↦ (err e, calls') ]

  abbrev pub pure : {A : Type 0} → A → Net B A
  pure a calls = (ok a, calls)

  abbrev pub lift : {A : Type 0} → Result A → Net B A
  lift r calls = (r, calls)

  -- `resp.json() if resp.content else {}`, and what is read of it
  unfoldable pub read_body : {A : Type 0} → Response → (Json → Result A) → Net B A
  read_body resp read calls = elim (body_of resp) [
    | ok body ↦ (read body, calls)
    | err e ↦ (err e, calls)
  ]

  unfoldable pub request : Http B → Call B → Net B Response
  request http call calls = (http.answer calls call, calls ++ call ∷ [])

  abbrev fetched : Response → Net B (Option Json)
  fetched resp = if is_failure resp then pure none else (do j ← lift resp.json; pure (some j))

  -- A GET whose failure is an answer of its own, and that is read as JSON otherwise.
  unfoldable pub fetch : Http B → String → List (String × String) → Net B (Option Json)
  unfolding request
  fetch http url params = do resp ← request http (get_call url params); fetched resp
