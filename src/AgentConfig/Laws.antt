-- ===== src/AgentConfig/Laws.antt =====
-- The cache of the configurations is not seen: the answers are those of the table alone.
use trade_receiver.Prelude.{
  ℕ, ◌-◌, String, true, not, ◌||◌, Option, none, some, List, [], ◌∷◌, ◌≡◌, refl, ap, ltb, inl, inr,
  Bool-cases,
}
use trade_receiver.Session.{Result, ok}
use trade_receiver.AgentConfig.{
  AgentKey, parse, filter, cache_ttl, Defaults, ResolvedAgentConfig, Rows, State, is_some,
  resolve_from_row, resolve_fresh, cached_or, get_agent_config, Update, update_agent_config,
  clear_all, reset_agent_config,
}
use trade_receiver.AgentConfig.AdminUpdate.{
  update_of, AdminAgentUpdate, template_errors, given_text, answered, update_if_valid,
  admin_update_agent,
}

-- A request about a configuration: to read it, or to update it as an administrator, at a time.
pub data Op : Type 0 where
  read : AgentKey → ℕ → Op
  update : AgentKey → AdminAgentUpdate → String → ℕ → Op

abbrev pub uncached : Rows → State
uncached rows = record { rows = rows; cache = λ k. none }

module _ (defaults : Defaults) where
  abbrev pub step : Op → State → Result ResolvedAgentConfig × State
  step (read key now) s = answered (get_agent_config defaults true key now s)
  step (update key body admin now) s = admin_update_agent defaults key body admin now s

  -- the answers to some requests, one after the other
  abbrev pub run : List Op → State → List (Result ResolvedAgentConfig)
  run [] s = []
  run (op ∷ ops) s = (step op s).0 ∷ run ops (step op s).1

  -- The specification: a table that is read anew each time.
  abbrev pub spec_step : Op → Rows → Result ResolvedAgentConfig × Rows
  spec_step (read key now) rows = (ok (resolve_from_row defaults key (rows key)), rows)
  spec_step (update key body admin now) rows =
      let (r, s) = admin_update_agent defaults key body admin now (uncached rows) in (r, s.rows)

  abbrev pub run_spec : List Op → Rows → List (Result ResolvedAgentConfig)
  run_spec [] rows = []
  run_spec (op ∷ ops) rows = (spec_step op rows).0 ∷ run_spec ops (spec_step op rows).1

  -- what is cached of a key is what its row gives
  abbrev pub IsCurrent : AgentKey → Rows → Option (ℕ × ResolvedAgentConfig) → Type 0
  IsCurrent key rows none = Unit {0}
  IsCurrent key rows (some (at, resolved)) = resolved ≡ resolve_from_row defaults key (rows key)

  abbrev pub IsCoherent : State → Type 0
  IsCoherent s = (k : AgentKey) → IsCurrent k s.rows (s.cache k)

  -- one step does what the specification does
  record Refines (s : State) (p : Result ResolvedAgentConfig × State)
      (q : Result ResolvedAgentConfig × Rows) : Type 0 where
    same_answer : p.0 ≡ q.0
    same_rows : p.1.rows ≡ q.1
    coherent : IsCoherent p.1

  resolve_fresh-IsCoherent :
      (key : AgentKey) (now : ℕ) (s : State)
      → IsCoherent s
      → IsCoherent (resolve_fresh defaults true key now s).1
  unfolding resolve_fresh
  resolve_fresh-IsCoherent parse now s c parse = refl
  resolve_fresh-IsCoherent parse now s c filter = c filter
  resolve_fresh-IsCoherent filter now s c parse = c parse
  resolve_fresh-IsCoherent filter now s c filter = refl

  fresh_read :
      (key : AgentKey) (now : ℕ) (s : State)
      → IsCoherent s
      → Refines s
          (answered (resolve_fresh defaults true key now s))
          (spec_step (read key now) s.rows)
  unfolding resolve_fresh
  fresh_read key now s c = record {
    same_answer = refl;
    same_rows = refl;
    coherent = resolve_fresh-IsCoherent key now s c;
  }

  cached_read :
      (key : AgentKey) (now : ℕ) (s : State) (o : Option (ℕ × ResolvedAgentConfig))
      → IsCoherent s
      → IsCurrent key s.rows o
      → Refines s (answered (cached_or defaults true key now s o)) (spec_step (read key now) s.rows)
  cached_read key now s none c h = fresh_read key now s c
  cached_read key now s (some (at, resolved)) c h = elim (Bool-cases (ltb (now - at) cache_ttl)) [
    | inl e ↦ rw e (record { same_answer = ap ok h; same_rows = refl; coherent = c })
    | inr e ↦ rw e (fresh_read key now s c)
  ]

  update-IsCoherent :
      (key : AgentKey) (u : Update) (now : ℕ) (s : State)
      → IsCoherent s
      → IsCoherent (update_agent_config defaults key u now s).1
  unfolding update_agent_config
  update-IsCoherent parse u now s c parse = tt
  update-IsCoherent parse u now s c filter = c filter
  update-IsCoherent filter u now s c parse = c parse
  update-IsCoherent filter u now s c filter = tt

  update_valid :
      (key : AgentKey) (body : AdminAgentUpdate) (admin : String) (now : ℕ) (s : State)
      (errors : List String)
      → IsCoherent s
      → let (r, t) = update_if_valid defaults key body admin now (uncached s.rows) errors in
        Refines s (update_if_valid defaults key body admin now s errors) (r, t.rows)
  unfolding update_agent_config
  update_valid key body admin now s [] c = record {
    same_answer = refl;
    same_rows = refl;
    coherent = update-IsCoherent key (update_of body admin) now s c;
  }
  update_valid key body admin now s (e ∷ errors) c = record {
    same_answer = refl;
    same_rows = refl;
    coherent = c;
  }

  step-Refines : (op : Op) (s : State) → IsCoherent s → Refines s (step op s) (spec_step op s.rows)
  unfolding get_agent_config admin_update_agent reset_agent_config update_agent_config
  step-Refines (read key now) s c = cached_read key now s (s.cache key) c (c key)
  step-Refines (update key body admin now) s c = elim (Bool-cases body.reset) [
    | inl e ↦ rw e (record {
      same_answer = refl;
      same_rows = refl;
      coherent = update-IsCoherent key (clear_all (some admin)) now s c;
    })
    | inr e ↦
        elim (Bool-cases (
          not (
            is_some body.model
            || (is_some body.system_prompt || is_some body.user_prompt_template)))) [
              | inl f ↦ rw (e, f) (record { same_answer = refl; same_rows = refl; coherent = c })
              | inr f ↦
                  rw (e, f)
                    (update_valid key body admin now s
                      (template_errors key (given_text body.user_prompt_template)) c)
            ]
  ]

  -- Whatever requests come, at whatever times, from a state whose cache is current and with no other
  -- process at the table: reading configurations through the cache, and updating them, gives the
  -- answers that the table alone would give.
  pub run-run_spec : (ops : List Op) (s : State) → IsCoherent s → run ops s ≡ run_spec ops s.rows
  run-run_spec [] s c = refl
  run-run_spec (op ∷ ops) s c =
      let r = step-Refines op s c in
      rw (r.same_answer, run-run_spec ops (step op s).1 r.coherent, r.same_rows) refl
