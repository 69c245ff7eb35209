-- ===== src/Settings/Laws.antt =====
-- Settings that are stored are read back.
use trade_receiver.Prelude.{
  String, Bool, true, false, ◌⊎◌, ◌<◌, arith, Option, none, some, ◌≡◌, refl, inl, inr, ◌==◌, ◌&&◌,
  Bool-cases,
}
use trade_receiver.Prelude.Text.{strip, strip_idem}
use trade_receiver.Prelude.Int.{pos, negsuc, ◌<ℤ◌}
use trade_receiver.Tables.{User}
use trade_receiver.Session.{ok, err, Error}
use trade_receiver.Session.Rules.{err_ok}
use trade_receiver.Settings.{
  UserSettings, none_if_empty, blank_prompt_to_none, is_short, is_sizing_mode, in_range, validate,
  get_settings, update_settings, or_broker, fits_broker, fits_columns, text_length, takes_texts,
}

none_if_empty-strip :
    (t : String) → blank_prompt_to_none (none_if_empty (strip t)) ≡ none_if_empty (strip t)
unfolding blank_prompt_to_none
none_if_empty-strip t = elim (Bool-cases (strip t == "")) [
  | inl e ↦ rw e refl
  | inr e ↦ rw (e, strip_idem t, e) refl
]

pub blank_prompt_to_none_idem :
    (o : Option String) → blank_prompt_to_none (blank_prompt_to_none o) ≡ blank_prompt_to_none o
unfolding blank_prompt_to_none
blank_prompt_to_none_idem none = refl
blank_prompt_to_none_idem (some t) = none_if_empty-strip t

-- A value that a column does not take: a mode of more than 16 characters, a broker of more than 32, a
-- number of contracts that has no 32 bits, or a text with a NUL.
abbrev pub IsRefused : UserSettings → Type 0
IsRefused body =
    (16 < text_length body.default_mode)
    ⊎ ((broker : String) × (body.default_broker ≡ some broker) × (32 < text_length broker))
    ⊎ (body.max_contracts <ℤ negsuc 2147483647)
    ⊎ (pos 2147483647 <ℤ body.max_contracts)
    ⊎ (takes_texts body ≡ false)

fits_broker-refused :
    (o : Option String)
    → fits_broker o ≡ false
    → (broker : String) × (o ≡ some broker) × (32 < text_length broker)
fits_broker-refused none h = cc
fits_broker-refused (some broker) h = (broker, refl, ground arith)

fits_columns-IsRefused : (body : UserSettings) → fits_columns body ≡ false → IsRefused body
unfolding fits_columns
fits_columns-IsRefused body h = elim (Bool-cases (fits_broker body.default_broker)) [
  | inr long ↦ inr (inl (fits_broker-refused body.default_broker long))
  | inl fits ↦ ground arith
]

ok_same : (a b : UserSettings) → ok a ≡ ok b → b ≡ a
ok_same a b h = cc

module _ (raw : UserSettings) (user : User) where
  abbrev prompt : Option String
  prompt = blank_prompt_to_none raw.trade_filter_prompt

  abbrev passes : Bool
  passes = is_sizing_mode raw.sizing_mode && (in_range raw && is_short prompt)

  validated :
      (body : UserSettings)
      → validate raw ≡ ok body
      → (passes ≡ true) × (body ≡ record raw { trade_filter_prompt = prompt })
  unfolding validate
  validated body h = elim (Bool-cases passes) [
    | inl e ↦ (e, ok_same _ body (rw (e, validate) at h))
    | inr e ↦ err_ok (rw (e, validate) at h)
  ]

  -- A body that was accepted is answered and read back after it was stored, but for the broker: one
  -- that is not given stays what it was, although the answer to the update shows none. Or a column
  -- does not take one of its values: then the update raises and the user stays as before.
  pub get_settings-update_settings :
      (body : UserSettings)
      → validate raw ≡ ok body
      → let (answer, user') = update_settings body user in
        ((answer ≡ ok body)
          × (get_settings user'
              ≡ ok (record body {
                default_broker = or_broker body.default_broker user.default_broker;
              })))
        ⊎ (IsRefused body × (user' ≡ user) × ((e : Error) × (answer ≡ err e)))
  unfolding get_settings update_settings validate
  get_settings-update_settings body h = elim (Bool-cases (fits_columns body)) [
    | inl fits ↦
        let (passed, same) = validated body h in
        rw (fits, update_settings)
          (inl
            (refl, rw same (rw (blank_prompt_to_none_idem raw.trade_filter_prompt, passed) refl)))
    | inr refused ↦
        rw (refused, update_settings) (inr (fits_columns-IsRefused body refused, refl, (_, refl)))
  ]
