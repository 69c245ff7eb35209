-- ===== src/Admin.antt =====
-- app/api/admin.py: who is an administrator, and the changes of roles and subscriptions. The
-- verification of a token is a parameter; `none` stands for its exception.
pub mod Laws
use Prim.Native.Char.{code}
use Prim.Native.String.{[], ◌∷◌}
use trade_receiver.Prelude.{
  ℕ, zero, suc, String, Bool, true, false, not, Option, none, some, List, ◌==◌, ◌&&◌, ◌||◌, eqb,
  any, find, update, if◌then◌else◌,
}
use trade_receiver.Prelude.Text.{strip, starts_with}
use trade_receiver.Tables.{text}
use trade_receiver.Session.{Result, ok, err, http}

-- The columns of a user that administration reads.
pub record Account : Type 0 where
  pub id : String
  pub email : String
  pub role : String

pub record TokenClaims : Type 0 where
  pub sub : String
  pub email : String

abbrev pub admin_role : String
admin_role = "admin"

abbrev pub is_admin : Account → Bool
is_admin a = a.role == admin_role

-- `s[n:]`
unfoldable pub drop : ℕ → String → String
drop zero s = s
drop (suc n) [] = []
drop (suc n) (c ∷ s) = drop n s

-- `token.count(".")`
unfoldable pub count_dots : String → ℕ
count_dots [] = 0
count_dots (c ∷ s) = let rest = count_dots s in if eqb (code c) 46 then suc rest else rest

abbrev pub has_id : String → Account → Bool
has_id id a = a.id == id

abbrev pub has_email : String → Account → Bool
has_email email a = a.email == email

-- by an email that is not empty, unless the subject was found
abbrev pub or_by_email : TokenClaims → List Account → Option Account → Option Account
or_by_email claims accounts (some a) = some a
or_by_email claims accounts none =
    if claims.email == "" then none else find (has_email claims.email) accounts

abbrev pub if_admin : Option Account → Result Account
if_admin none = err (http 401 (text "User not provisioned"))
if_admin (some a) = if is_admin a then ok a else err (http 403 (text "Admin access required"))

abbrev pub of_claims : Option TokenClaims → List Account → Result Account
of_claims none accounts = err (http 401 (text "Invalid token"))
of_claims (some claims) accounts =
    if_admin (or_by_email claims accounts (find (has_id claims.sub) accounts))

unfoldable pub require_admin :
    (String → Option TokenClaims) → String → List Account → Result Account
unfolding drop count_dots
require_admin verify authorization accounts =
    if not (starts_with authorization "Bearer ")
    then err (http 401 (text "Not authenticated"))
    else let token = strip (drop 7 authorization) in
      if not (eqb (count_dots token) 2)
      then err (http 401 (text "Admin requires Better Auth JWT"))
      else of_claims (verify token) accounts

abbrev pub set_role : String → Account → Account
set_role role a = record a { role = role }

-- of an administrator who is known
abbrev pub change_role :
    Account → String → String → List Account → Option Account → Result String × List Account
change_role admin user_id role accounts none = (err (http 404 (text "User not found")), accounts)
change_role admin user_id role accounts (some user) =
    if user.id == admin.id && not (role == admin_role)
    then (err (http 400 (text "Cannot remove your own admin role")), accounts)
    else (ok role, update (has_id user.id) (set_role role) accounts)

abbrev pub as_admin : Result Account → String → String → List Account → Result String × List Account
as_admin (err e) user_id role accounts = (err e, accounts)
as_admin (ok admin) user_id role accounts =
    change_role admin user_id role accounts (find (has_id user_id) accounts)

unfoldable pub admin_update_role :
    (String → Option TokenClaims)
    → String
    → String
    → String
    → List Account
    → Result String × List Account
unfolding require_admin
admin_update_role verify authorization user_id role accounts =
    as_admin (require_admin verify authorization accounts) user_id role accounts
