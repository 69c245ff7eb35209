-- ===== src/OauthState.antt =====
-- app/services/oauth_state.py. The token's base64 JSON and the HMAC are a parameter; times are seconds.
pub mod Laws
use Prim.Native.Char.{code}
use Prim.Native.String.{[], ◌∷◌, ◌++◌ as append}
use trade_receiver.Prelude.{
  ℕ, ◌+◌, String, Bool, true, false, not, Option, none, some, ◌==◌, eqb, ltb, if◌then◌else◌,
}
use trade_receiver.Prelude.Int.{ℤ, pos, ltb_ℤ}
use trade_receiver.Session.{Result, ok, err, Error, value_error}

pub record Payload : Type 0 where
  pub user_id : String
  pub broker : String
  pub exp : ℕ
  pub nonce : String

-- What `payload.get` reads of a decoded body: texts, if they are texts, and `int(exp)`.
pub record Claims : Type 0 where
  pub user_id : Option String
  pub broker : Option String
  pub exp : ℤ

-- `urlsafe_b64encode(json.dumps(…))` and its reader, which may raise, and the hex digest of a body.
pub record Codec : Type 0 where
  pub encode : Payload → String
  pub decode : String → Result Claims
  pub digest : String → String

abbrev pub state_ttl_seconds : ℕ
state_ttl_seconds = 600

unfoldable pub create_oauth_state : Codec → String → String → String → ℕ → String
create_oauth_state codec user_id broker nonce now =
    let body = codec.encode (record {
      user_id = user_id;
      broker = broker;
      exp = now + state_ttl_seconds;
      nonce = nonce;
    }) in
    append body (append "." (codec.digest body))

abbrev pub first_dot : Bool → String → Option (String × String)
first_dot true s = some ("", s)
first_dot false s = none

-- `s.rsplit(".", 1)`: at the last dot, if there is one
unfoldable pub rsplit_dot : String → Option (String × String)
rsplit_dot [] = none
rsplit_dot (c ∷ s) = elim (rsplit_dot s) [
  | some (body, sig) ↦ some (c ∷ body, sig)
  | none ↦ first_dot (eqb (code c) 46) s
]

abbrev pub is_text : Option String → String → Bool
is_text none t = false
is_text (some s) t = s == t

abbrev pub user_of : Option String → Result String
user_of none = err (value_error "OAuth state missing user_id")
user_of (some user_id) =
    if user_id == "" then err (value_error "OAuth state missing user_id") else ok user_id

unfoldable pub check_claims : String → ℕ → Claims → Result String
check_claims broker now claims =
    if not (is_text claims.broker broker)
    then err (value_error "OAuth state broker mismatch")
    else if ltb_ℤ claims.exp (pos now)
    then err (value_error "OAuth state expired")
    else user_of claims.user_id

abbrev pub check_decoded : String → ℕ → Result Claims → Result String
check_decoded broker now (err e) = err e
check_decoded broker now (ok claims) = check_claims broker now claims

unfoldable pub verify_parts : Codec → String → ℕ → Option (String × String) → Result String
verify_parts codec broker now none = err (value_error "Invalid OAuth state")
verify_parts codec broker now (some (body, sig)) =
    if codec.digest body == sig
    then check_decoded broker now (codec.decode body)
    else err (value_error "Invalid OAuth state signature")

unfoldable pub verify_oauth_state : Codec → String → String → ℕ → Result String
verify_oauth_state codec state broker now = verify_parts codec broker now (rsplit_dot state)
