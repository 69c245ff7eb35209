-- ===== src/Admin/Laws.antt =====
-- The last administrator stays.
use trade_receiver.Prelude.{
  String, Bool, true, false, not, Option, none, some, List, [], ◌∷◌, ◌≡◌, refl, sym, ap, ◌∙◌, inl,
  inr, arith, ◌==◌, ◌&&◌, eqb, any, find, update, Bool-cases, eq_iff, if◌then◌else◌,
}
use trade_receiver.Prelude.Text.{strip, starts_with}
use trade_receiver.Admin.{
  Account, TokenClaims, is_admin, admin_role, has_id, has_email, or_by_email, if_admin, of_claims,
  require_admin, set_role, change_role, as_admin, admin_update_role, drop, count_dots,
}

-- Requests to change a role: the header, the user and the role, one after the other.
pub record Request : Type 0 where
  pub authorization : String
  pub user_id : String
  pub role : String

-- The accounts after some requests, whoever makes them.
abbrev pub after : (String → Option TokenClaims) → List Request → List Account → List Account
after verify [] accounts = accounts
after verify (q ∷ qs) accounts =
    after verify qs (admin_update_role verify q.authorization q.user_id q.role accounts).1

some_same : (x a : Account) → some x ≡ some a → x ≡ a
some_same x a h = cc

or_true : (b c : Bool) → c ≡ true → (if b then true else c) ≡ true
or_true true c h = refl
or_true false c h = h

stays_admin :
    (p : Account → Bool) (role : String) (x : Account)
    → is_admin x ≡ true
    → (p x ≡ true → role ≡ admin_role)
    → is_admin (if p x then set_role role x else x) ≡ true
stays_admin p role x k f = elim (Bool-cases (p x)) [
  | inl e ↦ rw e ((eq_iff role admin_role).1 (f e))
  | inr e ↦ rw e k
]

-- an administrator in the list whom an update leaves one
any-update :
    (q p : Account → Bool) (role : String) (accounts : List Account) (a : Account)
    → find q accounts ≡ some a
    → is_admin a ≡ true
    → (p a ≡ true → role ≡ admin_role)
    → any is_admin (update p (set_role role) accounts) ≡ true
any-update q p role [] a h k f = cc
any-update q p role (x ∷ xs) a h k f = elim (Bool-cases (q x)) [
  | inl e ↦
      let same : x ≡ a = some_same x a (rw e at h) in
      let stays : is_admin (if p x then set_role role x else x) ≡ true =
        stays_admin p role x (ap is_admin same ∙ k) (λ g. f (ap p (sym same) ∙ g)) in
      rw stays refl
  | inr e ↦
      or_true (is_admin (if p x then set_role role x else x)) _
        (any-update q p role xs a (rw e at h) k f)
]

module _ (verify : String → Option TokenClaims) where
  abbrev HasAdmin : List Account → Type 0
  HasAdmin accounts = any is_admin accounts ≡ true

  change_role-HasAdmin :
      (q : Account → Bool) (admin : Account) (user_id role : String) (accounts : List Account)
      (o : Option Account)
      → find q accounts ≡ some admin
      → is_admin admin ≡ true
      → HasAdmin accounts
      → HasAdmin (change_role admin user_id role accounts o).1
  change_role-HasAdmin q admin user_id role accounts none found good h = h
  change_role-HasAdmin q admin user_id role accounts (some user) found good h =
      elim (Bool-cases (user.id == admin.id && not (role == admin_role))) [
        | inl e ↦ rw e h
        | inr e ↦ rw e (
            any-update q (has_id user.id) role accounts admin found good (λ same.
              ground
                (arith, eq_iff user.id admin.id, eq_iff admin.id user.id, eq_iff role admin_role)))
      ]

  if_admin-HasAdmin :
      (q : Account → Bool) (user_id role : String) (accounts : List Account) (o : Option Account)
      → find q accounts ≡ o
      → HasAdmin accounts
      → HasAdmin (as_admin (if_admin o) user_id role accounts).1
  if_admin-HasAdmin q user_id role accounts none found h = h
  if_admin-HasAdmin q user_id role accounts (some a) found h = elim (Bool-cases (is_admin a)) [
    | inl e ↦
        rw e (
          change_role-HasAdmin q a user_id role accounts (find (has_id user_id) accounts) found e h)
    | inr e ↦ rw e h
  ]

  by_email-HasAdmin :
      (claims : TokenClaims) (user_id role : String) (accounts : List Account) (o : Option Account)
      → find (has_id claims.sub) accounts ≡ o
      → HasAdmin accounts
      → HasAdmin (as_admin (if_admin (or_by_email claims accounts o)) user_id role accounts).1
  by_email-HasAdmin claims user_id role accounts (some a) found h =
      if_admin-HasAdmin (has_id claims.sub) user_id role accounts (some a) found h
  by_email-HasAdmin claims user_id role accounts none found h =
      elim (Bool-cases (claims.email == "")) [
        | inl e ↦ rw e h
        | inr e ↦ rw e (
            if_admin-HasAdmin (has_email claims.email) user_id role accounts
              (find (has_email claims.email) accounts) refl h)
      ]

  of_claims-HasAdmin :
      (o : Option TokenClaims) (user_id role : String) (accounts : List Account)
      → HasAdmin accounts
      → HasAdmin (as_admin (of_claims o accounts) user_id role accounts).1
  of_claims-HasAdmin none user_id role accounts h = h
  of_claims-HasAdmin (some claims) user_id role accounts h =
      by_email-HasAdmin claims user_id role accounts (find (has_id claims.sub) accounts) refl h

  admin_update_role-HasAdmin :
      (authorization user_id role : String) (accounts : List Account)
      → HasAdmin accounts
      → HasAdmin (admin_update_role verify authorization user_id role accounts).1
  unfolding admin_update_role require_admin
  admin_update_role-HasAdmin authorization user_id role accounts h =
      elim (Bool-cases (starts_with authorization "Bearer ")) [
        | inr e ↦ rw (e, require_admin) h
        | inl e ↦ elim (Bool-cases (eqb (count_dots (strip (drop 7 authorization))) 2)) [
          | inr f ↦ rw (e, f, require_admin) h
          | inl f ↦
              rw (e, f, require_admin)
                (of_claims-HasAdmin (verify (strip (drop 7 authorization))) user_id role accounts h)
        ]
      ]

  -- Where some user is an administrator, some user still is one after any requests to change roles,
  -- whoever makes them and however tokens are verified.
  pub after-HasAdmin :
      (qs : List Request) (accounts : List Account)
      → any is_admin accounts ≡ true
      → any is_admin (after verify qs accounts) ≡ true
  after-HasAdmin [] accounts h = h
  after-HasAdmin (q ∷ qs) accounts h =
      after-HasAdmin qs _ (admin_update_role-HasAdmin q.authorization q.user_id q.role accounts h)
