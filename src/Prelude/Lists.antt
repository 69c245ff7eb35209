-- ===== src/Prelude/Lists.antt =====
-- Lists measured by native numbers, with Boolean filters and searches as the program uses them.
use Prim.Native.Nat.{ℕ, suc, ◌+◌}
use mathlib.Core.Path.{◌≡◌, refl}
use mathlib.Core.Logic.{◌⊎◌, inl, inr}
use mathlib.Core.Bool.{Bool, true, false}
use mathlib.Core.Option.{Option, none, some}
use mathlib.Core.List.{List, [], ◌∷◌, ◌++◌}
use native.Mathlib.Omega.{arith}
use trade_receiver.Prelude.Tests.{if◌then◌else◌, Bool-cases}

abbrev pub All {ℓ κ} : {A : Type ℓ} → (A → Type κ) → List A → Type κ
All P [] = Unit
All P (x ∷ xs) = P x × All P xs

abbrev pub In : {A : Type 0} → A → List A → Type 0
In x [] = ⊥
In x (y ∷ ys) = (x ≡ y) ⊎ In x ys

module _ {ℓ} {A : Type ℓ} where
  abbrev pub length : List A → ℕ
  length [] = 0
  length (x ∷ xs) = suc (length xs)

  -- `[x for x in xs if p(x)]`
  abbrev pub filter : (A → Bool) → List A → List A
  filter p [] = []
  filter p (x ∷ xs) = if p x then x ∷ filter p xs else filter p xs

  -- `query.filter(p).first()`, and the first round of a loop that breaks on `p(x)`
  abbrev pub find : (A → Bool) → List A → Option A
  find p [] = none
  find p (x ∷ xs) = if p x then some x else find p xs

  -- `any(p(x) for x in xs)`
  abbrev pub any : (A → Bool) → List A → Bool
  any p [] = false
  any p (x ∷ xs) = if p x then true else any p xs

  -- a column update, `row.f = v` at the rows with `p`
  abbrev pub update : (A → Bool) → (A → A) → List A → List A
  update p f [] = []
  update p f (x ∷ xs) = (if p x then f x else x) ∷ update p f xs

  pub length-append : (xs ys : List A) → length (xs ++ ys) ≡ length xs + length ys
  length-append [] ys = omega arith
  length-append (x ∷ xs) ys = omega (arith, length-append xs ys)

module _ {A : Type 0} where
  pub In-append_left : (xs ys : List A) (x : A) → In x xs → In x (xs ++ ys)
  In-append_left [] ys x i = absurd i
  In-append_left (y ∷ xs) ys x i = ground (arith, In-append_left xs ys x)

  pub In-append_right : (xs ys : List A) (x : A) → In x ys → In x (xs ++ ys)
  In-append_right [] ys x i = i
  In-append_right (y ∷ xs) ys x i = ground (arith, In-append_right xs ys x i)

module _ {A : Type 0} (p : A → Bool) where
  pub find_sound : (xs : List A) (x : A) → find p xs ≡ some x → p x ≡ true
  find_sound [] x h = cc
  find_sound (y ∷ ys) x h = ground (arith, find_sound ys x)

  pub find-append_none : (xs ys : List A) → find p xs ≡ none → find p (xs ++ ys) ≡ find p ys
  find-append_none [] ys h = refl
  find-append_none (x ∷ xs) ys h = ground (arith, find-append_none xs ys)

  pub find-append_some : (xs ys : List A) (x : A) → find p xs ≡ some x → find p (xs ++ ys) ≡ some x
  find-append_some [] ys x h = cc
  find-append_some (y ∷ xs) ys x h = ground (arith, find-append_some xs ys x)

  pub find-In : (xs : List A) (x : A) → find p xs ≡ some x → In x xs
  find-In [] x h = cc
  find-In (y ∷ ys) x h = ground (arith, find-In ys x)

  pub find-eq_none : (xs : List A) → find p xs ≡ none → (x : A) → In x xs → p x ≡ false
  find-eq_none [] h x i = absurd i
  find-eq_none (y ∷ ys) h x i = ground (arith, find-eq_none ys (ground arith) x)

  pub In-filter : (xs : List A) (x : A) → In x (filter p xs) → In x xs × (p x ≡ true)
  In-filter [] x i = absurd i
  In-filter (y ∷ ys) x i = ground (arith, In-filter ys x)

  pub In-any : (xs : List A) (x : A) → In x xs → p x ≡ true → any p xs ≡ true
  In-any [] x i h = absurd i
  In-any (y ∷ ys) x i h = ground (arith, In-any ys x)

  pub filter-In : (xs : List A) (x : A) → In x xs → p x ≡ true → In x (filter p xs)
  filter-In [] x i h = absurd i
  filter-In (y ∷ ys) x i h = ground (arith, filter-In ys x)

module _ {A : Type 0} where
  pub In-append_cases : (xs ys : List A) (x : A) → In x (xs ++ ys) → In x xs ⊎ In x ys
  In-append_cases [] ys x i = inr i
  In-append_cases (y ∷ xs) ys x (inl e) = inl (inl e)
  In-append_cases (y ∷ xs) ys x (inr i) = elim (In-append_cases xs ys x i) [
    | inl j ↦ inl (inr j)
    | inr j ↦ inr j
  ]

module _ {A : Type 0} (p : A → Bool) where
  pub find-any : (xs : List A) → any p xs ≡ true → (x : A) × (find p xs ≡ some x)
  find-any [] h = cc
  find-any (y ∷ ys) h = elim (Bool-cases (p y)) [
    | inl hit ↦ (y, rw hit refl)
    | inr miss ↦ rw miss (find-any ys (rw miss at h))
  ]

  pub any-find : (xs : List A) (x : A) → find p xs ≡ some x → any p xs ≡ true
  any-find [] x h = cc
  any-find (y ∷ ys) x h = ground (arith, any-find ys x)
