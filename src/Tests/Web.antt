-- ===== src/Tests/Web.antt =====
-- A limit of one request a minute, and a state that is signed by a code that counts.
use Prim.Native.String.{◌++◌ as append}
use trade_receiver.Prelude.Text.{take, starts_with}
use trade_receiver.Prelude.{
  List, Option, String, [], arith, false, filter, length, none, refl, some, ◌+◌, ◌∷◌, ◌≡◌, ◌≤◌,
}
use trade_receiver.Prelude.Int.{pos}
use trade_receiver.Session.{ok}
use trade_receiver.RateLimit.{Request, is_recent, dispatch, count_hit, key_of}
use trade_receiver.RateLimit.Laws.{History, Reach, start, next, after_request, Reach-length}
use trade_receiver.AgentConfig.{Defaults, defaults_with, parse}
use trade_receiver.AgentConfig.AdminUpdate.{AdminAgentUpdate}
use trade_receiver.AgentConfig.Laws.{Op, read, update, run, run_spec, uncached, run-run_spec}
use trade_receiver.OauthState.{
  Claims, verify_parts, check_claims, rsplit_dot, Codec, create_oauth_state, verify_oauth_state,
}
use trade_receiver.OauthState.Laws.{
  RoundTrips, IsAccepted, verify_oauth_state-create_oauth_state, verify_oauth_state_sound,
}

abbrev ask : Request
ask = record { client = some "h"; path = "/x" }

-- the history that some requests lead to, with the proof that they do
abbrev Reached : Type 0
Reached = (h : History) × Reach 1 20 h

abbrev asked_twice : Reached
asked_twice = (_, next ask 20 (omega arith) (next ask 10 (omega arith) start))

Reach-length_example : length (filter (is_recent 30) (asked_twice.0.passed "h:/x")) ≤ 1
Reach-length_example = Reach-length 30 "h:/x" asked_twice.1 (omega arith)

-- once is passed, twice is not
asked_once : asked_twice.0.passed "h:/x" ≡ 10 ∷ []
unfolding after_request starts_with dispatch count_hit key_of
asked_once = refl

-- the body holds the user and the broker, the digest its first two letters
abbrev claims : Option (String × String) → Claims
claims none = record { user_id = none; broker = none; exp = pos 0 }
claims (some (user_id, broker)) = record {
  user_id = some user_id;
  broker = some broker;
  exp = pos 700;
}

abbrev codec : Codec
codec = record {
  encode = λ p. append p.user_id (append "." p.broker);
  decode = λ body. ok (claims (rsplit_dot body));
  digest = λ body. take 2 body;
}

codec-RoundTrips :
    RoundTrips codec (record { user_id = "u1"; broker = "tradier"; exp = 100 + 600; nonce = "n" })
unfolding rsplit_dot take
codec-RoundTrips = record { decode-encode = refl; digest_dotless = refl }

verify_oauth_state-create_oauth_state_example :
    verify_oauth_state codec (create_oauth_state codec "u1" "tradier" "n" 100) "tradier" 650
    ≡ ok "u1"
verify_oauth_state-create_oauth_state_example =
    verify_oauth_state-create_oauth_state codec "u1" "tradier" "n" 100 650 codec-RoundTrips
      (λ e. cc) (omega arith)

accepts : verify_oauth_state codec "u1.tradier.u1" "tradier" 650 ≡ ok "u1"
unfolding verify_oauth_state verify_parts check_claims rsplit_dot take
accepts = refl

verify_oauth_state_sound_example : IsAccepted codec "u1.tradier.u1" "tradier" "u1" 650
verify_oauth_state_sound_example =
    verify_oauth_state_sound codec "u1.tradier.u1" "tradier" "u1" 650 accepts

abbrev defaults : Defaults
defaults = defaults_with "gpt"

abbrev newer_model : AdminAgentUpdate
newer_model = record {
  reset = false;
  model = some (some "o4");
  system_prompt = none;
  user_prompt_template = none;
}

-- a reading, an update and a reading within the time to live of the first
abbrev requests : List Op
requests = read parse 1000 ∷ (update parse newer_model "admin" 2000 ∷ (read parse 3000 ∷ []))

run-run_spec_example :
    run defaults requests (uncached (λ k. none)) ≡ run_spec defaults requests (λ k. none)
run-run_spec_example = run-run_spec defaults requests (uncached (λ k. none)) (λ k. tt)
