-- ===== src/AgentConfig/AdminUpdate.antt =====
-- `admin_update_agent` of app/api/admin.py: an administrator changes a configuration or resets it.
use Prim.Native.String.{◌++◌ as append}
use trade_receiver.Prelude.{
  ℕ, String, Bool, true, false, not, Option, none, some, List, [], ◌∷◌, ◌==◌, ◌||◌, if◌then◌else◌,
}
use trade_receiver.Prelude.Text.{strip}
use trade_receiver.Tables.{text}
use trade_receiver.Session.{Result, ok, err, http}
use trade_receiver.AgentConfig.{
  AgentKey, Defaults, ResolvedAgentConfig, State, Update, is_some, update_agent_config,
  reset_agent_config, validate_user_prompt_template,
}

-- The body of an update by an administrator: a field that is set holds a text or null.
pub record AdminAgentUpdate : Type 0 where
  pub reset : Bool
  pub model : Option (Option String)
  pub system_prompt : Option (Option String)
  pub user_prompt_template : Option (Option String)

abbrev pub is_blank : Option String → Bool
is_blank none = true
is_blank (some t) = strip t == ""

abbrev pub clears : Option (Option String) → Bool
clears none = false
clears (some given) = is_blank given

abbrev pub given_text : Option (Option String) → Option String
given_text none = none
given_text (some given) = if is_blank given then none else given

abbrev pub template_errors : AgentKey → Option String → List String
template_errors key none = []
template_errors key (some template) = validate_user_prompt_template key template

abbrev pub update_of : AdminAgentUpdate → String → Update
update_of body admin = record {
  model = given_text body.model;
  system_prompt = given_text body.system_prompt;
  user_prompt_template = given_text body.user_prompt_template;
  updated_by = some admin;
  clear_model = clears body.model;
  clear_system_prompt = clears body.system_prompt;
  clear_user_prompt_template = clears body.user_prompt_template;
}

abbrev pub answered : ResolvedAgentConfig × State → Result ResolvedAgentConfig × State
answered (resolved, s) = (ok resolved, s)

-- `"; ".join(errors)`
abbrev pub joined : String → List String → String
joined e [] = e
joined e (f ∷ errors) = append e (append "; " (joined f errors))

abbrev pub update_if_valid :
    Defaults
    → AgentKey
    → AdminAgentUpdate
    → String
    → ℕ
    → State
    → List String
    → Result ResolvedAgentConfig × State
update_if_valid defaults key body admin now s [] =
    answered (update_agent_config defaults key (update_of body admin) now s)
update_if_valid defaults key body admin now s (e ∷ errors) =
    (err (http 400 (text (joined e errors))), s)

unfoldable pub admin_update_agent :
    Defaults → AgentKey → AdminAgentUpdate → String → ℕ → State → Result ResolvedAgentConfig × State
unfolding reset_agent_config update_agent_config validate_user_prompt_template
admin_update_agent defaults key body admin now s =
    if body.reset
    then answered (reset_agent_config defaults key (some admin) now s)
    else if not
        (is_some body.model || (is_some body.system_prompt || is_some body.user_prompt_template))
    then (err (http 400 (text "No fields to update")), s)
    else update_if_valid defaults key body admin now s
        (template_errors key (given_text body.user_prompt_template))
