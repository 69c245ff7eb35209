-- ===== src/Http/Laws.antt =====
-- Which calls an action leaves behind.
use mathlib.Core.Path.{subst}
use trade_receiver.Prelude.{List, [], ◌∷◌, ◌++◌, ◌≡◌, refl, sym, ◌⊎◌, inl, inr}
use trade_receiver.Session.{Result, ok, err, Error}
use trade_receiver.Http.{Call, Response, Http, Net, ◌>>=◌, request, body_of, read_body}
use trade_receiver.Session.Rules.{err_ok}
use trade_receiver.Json.{Json}

pub Result-cases :
    {A : Type 0} (r : Result A) → ((a : A) × (r ≡ ok a)) ⊎ ((e : Error) × (r ≡ err e))
Result-cases (ok a) = inl (a, refl)
Result-cases (err e) = inr (e, refl)

module _ {B : Type 0} where
  continue :
      {A C : Type 0} (p : Result A × List (Call B)) (f : A → Net B C) (after : List (Call B))
      → p.1 ≡ after
      → ((a : A) → (f a after).1 ≡ after)
      → (◌>>=◌ (λ c. p) f []).1 ≡ after
  continue (ok a, calls) f after e h = subst (λ c. (f a c).1 ≡ after) (sym e) (h a)
  continue (err x, calls) f after e h = e

  -- an action whose continuation makes no call
  pub Calls-bind :
      {A C : Type 0} (m : Net B A) (f : A → Net B C) (calls after : List (Call B))
      → (m calls).1 ≡ after
      → ((a : A) → (f a after).1 ≡ after)
      → (◌>>=◌ m f calls).1 ≡ after
  Calls-bind m f calls after e h = continue (m calls) f after e h

  pub Calls-request :
      {A : Type 0} (http : Http B) (call : Call B) (f : Response → Net B A) (calls : List (Call B))
      → ((resp : Response) → (f resp (calls ++ call ∷ [])).1 ≡ calls ++ call ∷ [])
      → (◌>>=◌ (request http call) f calls).1 ≡ calls ++ call ∷ []
  unfolding request
  Calls-request http call f calls h = Calls-bind (request http call) f calls _ refl h

  pub read_body_calls :
      {A : Type 0} (resp : Response) (read : Json → Result A) (calls : List (Call B))
      → (read_body resp read calls).1 ≡ calls
  unfolding read_body
  read_body_calls resp read calls = elim (Result-cases (body_of resp)) [
    | inl (body, e) ↦ rw (e, read_body) refl
    | inr (x, e) ↦ rw (e, read_body) refl
  ]

  pub read_body_result :
      {A : Type 0} (resp : Response) (read : Json → Result A) (calls : List (Call B)) (a : A)
      → (read_body resp read calls).0 ≡ ok a
      → (body : Json) × (read body ≡ ok a)
  unfolding read_body
  read_body_result resp read calls a h = elim (Result-cases (body_of resp)) [
    | inl (body, e) ↦ (body, rw (e, read_body) at h)
    | inr (x, e) ↦ err_ok (rw (e, read_body) at h)
  ]

  both_ok :
      {A C : Type 0} (p : Result A × List (Call B)) (f : A → Net B C) (c : C)
      → (◌>>=◌ (λ _. p) f []).0 ≡ ok c
      → (a : A) × (p.0 ≡ ok a) × ((f a p.1).0 ≡ ok c)
  both_ok (ok a, calls) f c h = (a, refl, h)
  both_ok (err x, calls) f c h = err_ok h

  -- what returns has been through both parts
  pub bind_ok :
      {A C : Type 0} (m : Net B A) (f : A → Net B C) (calls : List (Call B)) (c : C)
      → (◌>>=◌ m f calls).0 ≡ ok c
      → (a : A) × ((m calls).0 ≡ ok a) × ((f a (m calls).1).0 ≡ ok c)
  bind_ok m f calls c h = both_ok (m calls) f c h
