-- ===== src/OauthState/Laws.antt =====
-- The round trip of a state, and what an accepted state is.
use Prim.Native.Char.{Char, code}
use Prim.Native.String.{[], ◌∷◌, ◌++◌ as append}
use text.Mathlib.TextEquality.{Char-path}
use text.Mathlib.TextLemmas.{nil-append, cons-append}
use trade_receiver.Prelude.{
  ℕ, ◌+◌, ◌≤◌, String, Bool, true, false, not, Option, none, some, ◌≡◌, ◌≢◌, refl, sym, ap, ◌∙◌,
  inl, inr, arith, eqb, ◌==◌, Bool-cases, Option-cases, eq_iff, eqb_iff, eq_refl,
}
use trade_receiver.Prelude.Int.{pos, ◌≤ℤ◌, ltb_ℤ, ltb_ℤ→le}
use trade_receiver.Session.Rules.{guard_passed, err_ok}
use trade_receiver.Session.{Result, ok, err}
use trade_receiver.OauthState.{
  Payload, Claims, Codec, create_oauth_state, first_dot, rsplit_dot, is_text, user_of, check_claims,
  check_decoded, verify_parts, verify_oauth_state,
}

abbrev dot : Char
dot = "."

dot-append : (sig : String) → append "." sig ≡ dot ∷ sig
dot-append sig = cons-append dot "" sig ∙ ap (λ t. dot ∷ t) (nil-append sig)

-- The last dot of a text is the one that a rest without dots follows.
rsplit_dot-append :
    (body sig : String)
    → rsplit_dot sig ≡ none
    → rsplit_dot (append body (append "." sig)) ≡ some (body, sig)
unfolding rsplit_dot
rsplit_dot-append [] sig h =
    ap rsplit_dot (nil-append (append "." sig) ∙ dot-append sig) ∙ rw (h, rsplit_dot) refl
rsplit_dot-append (c ∷ body) sig h =
    ap rsplit_dot (cons-append c body (append "." sig))
    ∙ rw (rsplit_dot-append body sig h, rsplit_dot) refl

first_dot_sound :
    (b : Bool) (c : Char) (s body sig : String)
    → (b ≡ true → c ≡ dot)
    → first_dot b s ≡ some (body, sig)
    → c ∷ s ≡ append body (append "." sig)
first_dot_sound true c s body sig is_dot h =
    let same = is_dot refl in
    let tail = dot-append s in
    let nothing = nil-append (append "." s) in cc (same, tail, nothing, h)
first_dot_sound false c s body sig is_dot h = cc

-- one step of the scan: what it gives when the rest gave `rest`
abbrev split_step : Char → String → Option (String × String) → Option (String × String)
split_step c s (some (body, sig)) = some (c ∷ body, sig)
split_step c s none = first_dot (eqb (code c) 46) s

split_sound :
    (c : Char) (s body sig : String) (rest : Option (String × String))
    → ((b g : String) → rest ≡ some (b, g) → s ≡ append b (append "." g))
    → split_step c s rest ≡ some (body, sig)
    → c ∷ s ≡ append body (append "." sig)
split_sound c s body sig none ih h =
    first_dot_sound (eqb (code c) 46) c s body sig
      (λ e. Char-path c dot ((eqb_iff (code c) 46).0 e)) h
split_sound c s body sig (some (b, g)) ih h =
    let parts = ih b g refl in let step = cons-append c b (append "." g) in cc (parts, step, h)

rsplit_dot_sound :
    (state body sig : String)
    → rsplit_dot state ≡ some (body, sig)
    → state ≡ append body (append "." sig)
unfolding rsplit_dot
rsplit_dot_sound [] body sig h = cc
rsplit_dot_sound (c ∷ s) body sig h = split_sound c s body sig (rsplit_dot s) (rsplit_dot_sound s) h

-- What the standard library promises of a payload: its body decodes to what was encoded, and the
-- hex digest of the body has no dot.
pub record RoundTrips (codec : Codec) (p : Payload) : Type 0 where
  pub decode-encode :
      codec.decode (codec.encode p)
      ≡ ok (record { user_id = some p.user_id; broker = some p.broker; exp = pos p.exp })
  pub digest_dotless : rsplit_dot (codec.digest (codec.encode p)) ≡ none

not_expired : (now later : ℕ) → later ≤ now + 600 → ltb_ℤ (pos (now + 600)) (pos later) ≡ false
not_expired now later h = ground arith

not_empty : (t : String) → t ≢ "" → (t == "") ≡ false
not_empty t h = ground (arith, eq_iff t "")

-- A state that was created for a user and a broker is verified for that broker, and gives the user
-- back, until ten minutes have passed.
pub verify_oauth_state-create_oauth_state :
    (codec : Codec) (user_id broker nonce : String) (now later : ℕ)
    → RoundTrips codec
        (record { user_id = user_id; broker = broker; exp = now + 600; nonce = nonce })
    → user_id ≢ ""
    → later ≤ now + 600
    → verify_oauth_state codec (create_oauth_state codec user_id broker nonce now) broker later
      ≡ ok user_id
unfolding verify_oauth_state create_oauth_state verify_parts check_claims
verify_oauth_state-create_oauth_state codec user_id broker nonce now later c named recent =
    let body =
      codec.encode
        (record { user_id = user_id; broker = broker; exp = now + 600; nonce = nonce }) in
    rw
      (
        rsplit_dot-append body (codec.digest body) c.digest_dotless,
        verify_parts,
        eq_refl (codec.digest body),
        c.decode-encode,
        check_claims,
        eq_refl broker,
        not_expired now later recent,
        not_empty user_id named,
      )
      refl

-- What an accepted state is: a signed body for the user and the broker that has not expired.
pub record IsAccepted (codec : Codec) (state broker user_id : String) (now : ℕ) : Type 0 where
  pub body : String
  pub claims : Claims
  pub signed : state ≡ append body (append "." (codec.digest body))
  pub decoded : codec.decode body ≡ ok claims
  pub for_broker : claims.broker ≡ some broker
  pub for_user : claims.user_id ≡ some user_id
  pub named : user_id ≢ ""
  pub recent : pos now ≤ℤ claims.exp

eq_true-not : (b : Bool) → not b ≡ false → b ≡ true
eq_true-not true h = refl
eq_true-not false h = cc

is_text_sound : (o : Option String) (t : String) → is_text o t ≡ true → o ≡ some t
is_text_sound none t h = cc
is_text_sound (some s) t h = ap some ((eq_iff s t).0 h)

user_of_sound :
    (o : Option String) (user_id : String)
    → user_of o ≡ ok user_id
    → (o ≡ some user_id) × (user_id ≢ "")
user_of_sound none user_id h = cc
user_of_sound (some u) user_id h = ground (arith, eq_iff u "")

check_claims_sound :
    (broker : String) (now : ℕ) (claims : Claims) (user_id : String)
    → check_claims broker now claims ≡ ok user_id
    → (claims.broker ≡ some broker)
      × (pos now ≤ℤ claims.exp)
      × (claims.user_id ≡ some user_id)
      × (user_id ≢ "")
unfolding check_claims
check_claims_sound broker now claims user_id h =
    let (e, rest) = guard_passed (not (is_text claims.broker broker)) _ _ user_id h in
    let (f, named) = guard_passed (ltb_ℤ claims.exp (pos now)) _ _ user_id rest in
    (
      is_text_sound claims.broker broker (eq_true-not (is_text claims.broker broker) e),
      ltb_ℤ→le claims.exp (pos now) f,
      (user_of_sound claims.user_id user_id named).0,
      (user_of_sound claims.user_id user_id named).1,
    )

check_decoded_sound :
    (broker : String) (now : ℕ) (decoded : Result Claims) (user_id : String)
    → check_decoded broker now decoded ≡ ok user_id
    → (claims : Claims) × (decoded ≡ ok claims) × (check_claims broker now claims ≡ ok user_id)
check_decoded_sound broker now (err e) user_id h = cc
check_decoded_sound broker now (ok claims) user_id h = (claims, refl, h)

parts_sound :
    (codec : Codec) (state broker user_id : String) (now : ℕ) (body sig : String)
    → state ≡ append body (append "." sig)
    → verify_parts codec broker now (some (body, sig)) ≡ ok user_id
    → IsAccepted codec state broker user_id now
unfolding verify_parts
parts_sound codec state broker user_id now body sig joined h =
    elim (Bool-cases (codec.digest body == sig)) [
      | inr e ↦ err_ok (rw e at h)
      | inl e ↦
          let same = (eq_iff (codec.digest body) sig).0 e in
          let (claims, decoded, checked) =
            check_decoded_sound broker now (codec.decode body) user_id (rw e at h) in
          let (b, c, d, f) = check_claims_sound broker now claims user_id checked in
          record {
            body = body;
            claims = claims;
            signed = joined ∙ ap (λ g. append body (append "." g)) (sym same);
            decoded = decoded;
            for_broker = b;
            recent = c;
            for_user = d;
            named = f;
          }
    ]

-- Whatever state is accepted for a broker: a body signed by this program that decodes to claims of
-- that broker and of the user given back, not empty, and that has not expired.
pub verify_oauth_state_sound :
    (codec : Codec) (state broker user_id : String) (now : ℕ)
    → verify_oauth_state codec state broker now ≡ ok user_id
    → IsAccepted codec state broker user_id now
unfolding verify_oauth_state verify_parts
verify_oauth_state_sound codec state broker user_id now h = elim (Option-cases (rsplit_dot state)) [
  | inl missing ↦ err_ok (rw missing at h)
  | inr ((body, sig), found) ↦
      parts_sound codec state broker user_id now body sig (rsplit_dot_sound state body sig found)
        (rw found at h)
]
