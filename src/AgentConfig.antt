-- ===== src/AgentConfig.antt =====
-- app/services/agent_config.py and app/agents/defaults.py. The table has a row for each of the two
-- keys, if it has one; times are milliseconds. Rendering a prompt and the answer's serialisation are
-- left out.
pub mod AdminUpdate
pub mod Laws
use Prim.Native.String.{◌++◌ as append}
use trade_receiver.Prelude.{
  ℕ, ◌-◌, String, Bool, true, false, not, Option, none, some, List, [], ◌∷◌, ◌++◌, ◌==◌, ◌||◌, ltb,
  if◌then◌else◌,
}
use trade_receiver.Prelude.Text.{strip, take, contains}
use trade_receiver.Tables.{text}
use trade_receiver.Session.{Result, ok, err, http}

pub data AgentKey : Type 0 where
  parse filter : AgentKey

abbrev pub same_agent : AgentKey → AgentKey → Bool
same_agent parse parse = true
same_agent filter filter = true
same_agent _ _ = false

abbrev pub cache_ttl : ℕ
cache_ttl = 30000

abbrev pub model_max_len : ℕ
model_max_len = 200

-- The model that the settings name, and the default prompts of an agent.
pub record Defaults : Type 0 where
  pub ai_model : String
  pub system_prompt : AgentKey → String
  pub user_prompt_template : AgentKey → String

pub record AgentConfig : Type 0 where
  pub model : Option String
  pub system_prompt : Option String
  pub user_prompt_template : Option String
  pub updated_at : Option ℕ
  pub updated_by : Option String

pub record ResolvedAgentConfig : Type 0 where
  pub agent_key : AgentKey
  pub model : String
  pub system_prompt : String
  pub user_prompt_template : String
  pub model_overridden : Bool
  pub system_prompt_overridden : Bool
  pub user_prompt_template_overridden : Bool
  pub updated_at : Option ℕ
  pub updated_by : Option String

abbrev pub Rows : Type 0
Rows = AgentKey → Option AgentConfig

pub record State : Type 0 where
  pub rows : Rows
  pub cache : AgentKey → Option (ℕ × ResolvedAgentConfig)

abbrev pub set_at : {A : Type 0} → AgentKey → A → (AgentKey → A) → AgentKey → A
set_at key a f k = if same_agent k key then a else f k

unfoldable pub invalidate_agent_config_cache : Option AgentKey → State → State
invalidate_agent_config_cache none s = record s { cache = λ k. none }
invalidate_agent_config_cache (some key) s = record s { cache = set_at key none s.cache }

abbrev pub none_if_empty : String → Option String
none_if_empty t = if t == "" then none else some t

unfoldable pub blank_to_none : Option String → Option String
blank_to_none none = none
blank_to_none (some t) = none_if_empty (strip t)

abbrev pub is_some : {A : Type 0} → Option A → Bool
is_some none = false
is_some (some a) = true

abbrev pub or_default : Option String → String → String
or_default none d = d
or_default (some t) d = t

-- a row without any column set, which stands for none
abbrev pub empty_row : AgentConfig
empty_row = record {
  model = none;
  system_prompt = none;
  user_prompt_template = none;
  updated_at = none;
  updated_by = none;
}

abbrev pub row_or_empty : Option AgentConfig → AgentConfig
row_or_empty none = empty_row
row_or_empty (some row) = row

unfoldable pub resolve_from_row : Defaults → AgentKey → Option AgentConfig → ResolvedAgentConfig
unfolding blank_to_none
resolve_from_row defaults key found =
    let row = row_or_empty found in
    record {
      agent_key = key;
      model = or_default (blank_to_none row.model) defaults.ai_model;
      system_prompt = or_default (blank_to_none row.system_prompt) (defaults.system_prompt key);
      user_prompt_template =
          or_default (blank_to_none row.user_prompt_template) (defaults.user_prompt_template key);
      model_overridden = is_some (blank_to_none row.model);
      system_prompt_overridden = is_some (blank_to_none row.system_prompt);
      user_prompt_template_overridden = is_some (blank_to_none row.user_prompt_template);
      updated_at = row.updated_at;
      updated_by = row.updated_by;
    }

-- without a session the row counts as missing
abbrev pub row_at : Bool → AgentKey → State → Option AgentConfig
row_at has_db key s = if has_db then s.rows key else none

unfoldable pub resolve_fresh : Defaults → Bool → AgentKey → ℕ → State → ResolvedAgentConfig × State
unfolding resolve_from_row
resolve_fresh defaults has_db key now s =
    let resolved = resolve_from_row defaults key (row_at has_db key s) in
    (resolved, record s { cache = set_at key (some (now, resolved)) s.cache })

abbrev pub cached_or :
    Defaults
    → Bool
    → AgentKey
    → ℕ
    → State
    → Option (ℕ × ResolvedAgentConfig)
    → ResolvedAgentConfig × State
cached_or defaults has_db key now s none = resolve_fresh defaults has_db key now s
cached_or defaults has_db key now s (some (at, resolved)) =
    if ltb (now - at) cache_ttl then (resolved, s) else resolve_fresh defaults has_db key now s

unfoldable pub get_agent_config :
    Defaults → Bool → AgentKey → ℕ → State → ResolvedAgentConfig × State
unfolding resolve_fresh
get_agent_config defaults has_db key now s = cached_or defaults has_db key now s (s.cache key)

-- What an update asks for.
pub record Update : Type 0 where
  pub model : Option String
  pub system_prompt : Option String
  pub user_prompt_template : Option String
  pub updated_by : Option String
  pub clear_model : Bool
  pub clear_system_prompt : Bool
  pub clear_user_prompt_template : Bool

abbrev pub new_prompt : Bool → Option String → Option String → Option String
new_prompt true given old = none
new_prompt false none old = old
new_prompt false (some t) old = none_if_empty (strip t)

-- a model is cut off at 200 characters
abbrev pub cut : Option String → Option String
cut none = none
cut (some t) = some (take model_max_len t)

abbrev pub new_model : Bool → Option String → Option String → Option String
new_model true given old = none
new_model false none old = old
new_model false (some t) old = cut (none_if_empty (strip t))

unfoldable pub updated_row : Update → ℕ → Option AgentConfig → AgentConfig
updated_row u now found =
    let row = row_or_empty found in
    record {
      model = new_model u.clear_model u.model row.model;
      system_prompt = new_prompt u.clear_system_prompt u.system_prompt row.system_prompt;
      user_prompt_template =
          new_prompt u.clear_user_prompt_template u.user_prompt_template row.user_prompt_template;
      updated_at = some now;
      updated_by = u.updated_by;
    }

unfoldable pub update_agent_config :
    Defaults → AgentKey → Update → ℕ → State → ResolvedAgentConfig × State
unfolding updated_row resolve_from_row invalidate_agent_config_cache
update_agent_config defaults key u now s =
    let row = updated_row u now (s.rows key) in
    (
      resolve_from_row defaults key (some row),
      invalidate_agent_config_cache (some key) (record s { rows = set_at key (some row) s.rows }),
    )

abbrev pub clear_all : Option String → Update
clear_all updated_by = record {
  model = none;
  system_prompt = none;
  user_prompt_template = none;
  updated_by = updated_by;
  clear_model = true;
  clear_system_prompt = true;
  clear_user_prompt_template = true;
}

unfoldable pub reset_agent_config :
    Defaults → AgentKey → Option String → ℕ → State → ResolvedAgentConfig × State
unfolding update_agent_config
reset_agent_config defaults key updated_by now s =
    update_agent_config defaults key (clear_all updated_by) now s

abbrev pub default_system_prompt : AgentKey → String
default_system_prompt parse = "Return only valid JSON matching the trade intent schema."
default_system_prompt filter =
    "Follow the user's trading rules and return only JSON. Set take=true to execute the trade as parsed. Set take=false to skip it. Do not invent fills or change strike, quantity, or side."

abbrev pub default_user_prompt_template : AgentKey → String
default_user_prompt_template parse =
    "Parse this trade alert into structured JSON. Use asset_class=future for futures symbols like ES, MES, NQ, MNQ, YM, RTY with BUY/SELL. Use asset_class=option for options alerts with strikes and expirations. Use action skip if not a trade alert. Include quantity; default to 1 if not specified. For futures, map BUY to buy_to_open and SELL to sell_to_close.\n\n{alert_text}"
default_user_prompt_template filter =
    "User rules:\n{user_rules}\n\nParsed trade intent (do not change strike, quantity, or side; only decide take or skip):\n{intent_json}"

-- the defaults of app/agents/defaults.py with a model of the settings
abbrev pub defaults_with : String → Defaults
defaults_with ai_model = record {
  ai_model = ai_model;
  system_prompt = default_system_prompt;
  user_prompt_template = default_user_prompt_template;
}

abbrev pub required_placeholders : AgentKey → List String
required_placeholders parse = "alert_text" ∷ []
required_placeholders filter = "user_rules" ∷ ("intent_json" ∷ [])

abbrev pub message_of : String → String
message_of token = append "user_prompt_template must include " token

-- a message for each name that a template lacks
unfoldable pub missing_placeholders : List String → String → List String
missing_placeholders [] template = []
missing_placeholders (name ∷ names) template =
    let rest = missing_placeholders names template in
    let token = append "{" (append name "}") in
    if contains template token then rest else message_of token ∷ rest

unfoldable pub validate_user_prompt_template : AgentKey → String → List String
unfolding missing_placeholders
validate_user_prompt_template key template =
    missing_placeholders (required_placeholders key) template
