-- ===== src/Settings.antt =====
-- app/api/settings.py: the settings of a user. `validate` is what the class `UserSettings` checks of
-- a body and of an answer.
pub mod Laws
use Prim.Native.Char.{code}
use Prim.Native.String.{[], ◌∷◌}
use trade_receiver.Prelude.{
  ℕ, suc, String, Bool, true, false, not, Option, none, some, ◌==◌, ◌&&◌, ◌||◌, leb, eqb,
  if◌then◌else◌,
}
use trade_receiver.Prelude.Int.{ℤ, pos, negsuc, Decimal, ltb_ℤ, leb_ℤ}
use trade_receiver.Prelude.Text.{strip}
use trade_receiver.Tables.{User, text}
use trade_receiver.Session.{Result, ok, err, http, runtime_error}

pub record UserSettings : Type 0 where
  pub default_mode : String
  pub max_contracts : ℤ
  pub allowed_tickers : Option String
  pub live_trading_enabled : Bool
  pub sizing_mode : String
  pub fixed_contracts : ℤ
  pub risk_percent : Decimal
  pub default_broker : Option String
  pub trade_filter_prompt : Option String

-- `len(text)`
unfoldable pub text_length : String → ℕ
text_length [] = 0
text_length (c ∷ s) = suc (text_length s)

abbrev pub none_if_empty : String → Option String
none_if_empty t = if t == "" then none else some t

unfoldable pub blank_prompt_to_none : Option String → Option String
blank_prompt_to_none none = none
blank_prompt_to_none (some t) = none_if_empty (strip t)

abbrev pub is_short : Option String → Bool
is_short none = true
is_short (some t) = leb (text_length t) 4000

abbrev pub is_sizing_mode : String → Bool
is_sizing_mode t = t == "alert_inferred" || (t == "fixed" || t == "risk_percent")

-- one to a hundred contracts, and more than nothing to a hundred percent
abbrev pub in_range : UserSettings → Bool
in_range s =
    (leb_ℤ (pos 1) s.fixed_contracts && leb_ℤ s.fixed_contracts (pos 100))
    && (ltb_ℤ (pos 0) s.risk_percent && leb_ℤ s.risk_percent (pos 1000000))

unfoldable pub validate : UserSettings → Result UserSettings
unfolding blank_prompt_to_none text_length
validate s =
    let prompt = blank_prompt_to_none s.trade_filter_prompt in
    if is_sizing_mode s.sizing_mode && (in_range s && is_short prompt)
    then ok (record s { trade_filter_prompt = prompt })
    else err (http 422 (text "validation error"))

abbrev pub settings_of : User → UserSettings
settings_of user = record {
  default_mode = user.default_mode;
  max_contracts = user.max_contracts;
  allowed_tickers = user.allowed_tickers;
  live_trading_enabled = user.live_trading_enabled;
  sizing_mode = user.sizing_mode;
  fixed_contracts = user.fixed_contracts;
  risk_percent = user.risk_percent;
  default_broker = user.default_broker;
  trade_filter_prompt = user.trade_filter_prompt;
}

unfoldable pub get_settings : User → Result UserSettings
unfolding validate
get_settings user = validate (settings_of user)

-- a broker that is not given is left as it was
abbrev pub or_broker : Option String → Option String → Option String
or_broker none old = old
or_broker (some broker) old = some broker

abbrev pub fits_broker : Option String → Bool
fits_broker none = true
fits_broker (some broker) = leb (text_length broker) 32

-- a text of PostgreSQL has no NUL
unfoldable pub no_nul : String → Bool
no_nul [] = true
no_nul (c ∷ s) = not (eqb (code c) 0) && no_nul s

abbrev pub no_nul_or_none : Option String → Bool
no_nul_or_none none = true
no_nul_or_none (some t) = no_nul t

unfoldable pub takes_texts : UserSettings → Bool
unfolding no_nul
takes_texts body =
    no_nul body.default_mode
    && (no_nul_or_none body.allowed_tickers
        && (no_nul_or_none body.default_broker && no_nul_or_none body.trade_filter_prompt))

-- The columns that take less than a validated body: the modes and the broker are texts of at most 16
-- and 32 characters, an integer has 32 bits, and no text has a NUL.
unfoldable pub fits_columns : UserSettings → Bool
unfolding text_length takes_texts
fits_columns body =
    leb (text_length body.default_mode) 16
    && (fits_broker body.default_broker
        && (leb_ℤ (negsuc 2147483647) body.max_contracts
            && (leb_ℤ body.max_contracts (pos 2147483647) && takes_texts body)))

-- Of a body that was validated; the answer is the body. A commit that a column refuses raises, and
-- stores nothing.
unfoldable pub update_settings : UserSettings → User → Result UserSettings × User
unfolding fits_columns
update_settings body user =
    if fits_columns body
    then (
      ok body,
      record user {
        default_mode = body.default_mode;
        max_contracts = body.max_contracts;
        allowed_tickers = body.allowed_tickers;
        live_trading_enabled = body.live_trading_enabled;
        sizing_mode = body.sizing_mode;
        fixed_contracts = body.fixed_contracts;
        risk_percent = body.risk_percent;
        trade_filter_prompt = body.trade_filter_prompt;
        default_broker = or_broker body.default_broker user.default_broker;
      },
    )
    else (err (runtime_error "value out of range for a column"), user)
