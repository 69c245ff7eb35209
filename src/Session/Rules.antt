-- ===== src/Session/Rules.antt =====
-- Rules for actions that leave the session alone: one for each way to build an action.
use mathlib.Core.Path.{subst}
use trade_receiver.Prelude.{
  ◌≡◌, refl, ap, Bool, true, false, [], ◌++◌, ◌∙◌, ◌≢◌, ◌⊎◌, inl, inr, if◌then◌else◌,
}
use trade_receiver.Session.{
  Session, Error, Result, ok, err, integrity_error, clash, commit, M, ◌>>=◌, ◌>>◌, pure, lift,
}

-- The value of a result has `Q`, if there is one.
abbrev pub Returns : {A : Type 0} → (A → Type 0) → Result A → Type 0
Returns Q (ok a) = Q a
Returns Q (err e) = Unit {0}

-- `m` changes nothing, and what it returns has `Q`.
pub record Reads {A : Type 0} (Q : A → Type 0) (m : M A) : Type 0 where
  pub returns : (s : Session) → Returns Q (m s).0
  pub unchanged : (s : Session) → (m s).1 ≡ s

module _ {A : Type 0} (Q : A → Type 0) where
  pub Reads-pure : (a : A) → Q a → Reads Q (pure a)
  Reads-pure a h = record { returns = λ s. h; unchanged = λ s. refl }

  pub Reads-if : (b : Bool) (m n : M A) → Reads Q m → Reads Q n → Reads Q (if b then m else n)
  Reads-if true m n p q = p
  Reads-if false m n p q = q

  Returns-all : (r : Result A) → ((a : A) → Q a) → Returns Q r
  Returns-all (ok a) h = h a
  Returns-all (err e) h = tt

  pub Reads-lift : (r : Result A) → ((a : A) → Q a) → Reads Q (lift r)
  Reads-lift r h = record { returns = λ s. Returns-all r h; unchanged = λ s. refl }

-- the answer of a component that is asked about the present session
module _ {A : Type 0} (Q : A → Type 0) where
  pub Reads-ask : (ask : Session → Result A) → ((a : A) → Q a) → Reads Q (λ s. lift (ask s) s)
  Reads-ask ask h = record { returns = λ s. Returns-all Q (ask s) h; unchanged = λ s. refl }

module _ {A B : Type 0} (P : A → Type 0) (Q : B → Type 0) where
  bind-Returns :
      (r : Result A) (s : Session) (f : A → M B)
      → Returns P r
      → ((a : A) → P a → Reads Q (f a))
      → Returns Q ((lift r >>= f) s).0 × (((lift r >>= f) s).1 ≡ s)
  bind-Returns (ok a) s f h k = ((k a h).returns s, (k a h).unchanged s)
  bind-Returns (err e) s f h k = (tt, refl)

  pub Reads-bind :
      (m : M A) (f : A → M B) → Reads P m → ((a : A) → P a → Reads Q (f a)) → Reads Q (m >>= f)
  Reads-bind m f h k = record {
    returns = λ s. (bind-Returns (m s).0 (m s).1 f (h.returns s) k).0;
    unchanged = λ s. (bind-Returns (m s).0 (m s).1 f (h.returns s) k).1 ∙ h.unchanged s;
  }

-- A bind of an action that changes nothing goes on from the same session, or raises there.
module _ {A B : Type 0} (Q : A → Type 0) where
  answer_cases :
      (r : Result A) (f : A → M B) (s : Session)
      → Returns Q r
      → ((a : A) × Q a × (r ≡ ok a) × ((lift r >>= f) s ≡ f a s))
        ⊎ ((e : Error) × ((lift r >>= f) s ≡ (err e, s)))
  answer_cases (ok a) f s h = inl (a, h, refl, refl)
  answer_cases (err e) f s h = inr (e, refl)

  pub bind_cases :
      (m : M A) (f : A → M B) (s : Session)
      → Reads Q m
      → ((a : A) × Q a × ((m s).0 ≡ ok a) × ((m >>= f) s ≡ f a s))
        ⊎ ((e : Error) × ((m >>= f) s ≡ (err e, s)))
  bind_cases m f s h =
      subst
        (λ t.
          ((a : A) × Q a × ((m s).0 ≡ ok a) × ((lift (m s).0 >>= f) (m s).1 ≡ f a t))
          ⊎ ((e : Error) × ((lift (m s).0 >>= f) (m s).1 ≡ (err e, t))))
        (h.unchanged s) (answer_cases (m s).0 f (m s).1 (h.returns s))

-- With no rival rows a commit saves what the session sees.
pub commit_quiet :
    (s : Session) → s.rivals ≡ [] → commit s ≡ (ok tt, record s { saved = s.db; rivals = [] })
unfolding commit
commit_quiet s h =
    let quiet : s ≡ record s { rivals = [] } = λ i. record s { rivals = h i } in ap commit quiet

pub commit_then :
    {B : Type 0} (s : Session) (m : M B)
    → s.rivals ≡ []
    → (commit >> m) s ≡ m (record s { saved = s.db; rivals = [] })
commit_then s m h = ap (λ p. (lift p.0 >> m) p.1) (commit_quiet s h)

-- A result that is no exception has passed the guard before it.
pub guard_passed :
    {A : Type 0} (b : Bool) (e : Error) (r : Result A) (a : A)
    → (if b then err e else r) ≡ ok a
    → (b ≡ false) × (r ≡ ok a)
guard_passed true e r a h = cc
guard_passed false e r a h = (refl, h)

err-neq-ok : {A : Type 0} {e : Error} {a : A} → ◌≢◌ {A = Result A} (err e) (ok a)
err-neq-ok h = cc

pub err_ok {ℓ} : {A : Type 0} {P : Type ℓ} {e : Error} {a : A} → err e ≡ ok a → P
err_ok h = elim (err-neq-ok h) [ ]

module _ (s : Session) where
  pub commit_fails :
      clash s.rivals s.db.alerts ≡ true
      → commit s ≡ (
        err integrity_error,
        record s { saved = record s.saved { alerts = s.rivals ++ s.saved.alerts }; rivals = [] },
      )
  unfolding commit
  commit_fails h = rw h refl

  pub commit_works :
      clash s.rivals s.db.alerts ≡ false
      → commit s ≡ (
        ok tt,
        record s {
          db = record s.db { alerts = s.rivals ++ s.db.alerts };
          saved = record s.db { alerts = s.rivals ++ s.db.alerts };
          rivals = [];
        },
      )
  unfolding commit
  commit_works h = rw h refl
