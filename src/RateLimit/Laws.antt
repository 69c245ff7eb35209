-- ===== src/RateLimit/Laws.antt =====
-- No client passes a path more often than the limit within a minute.
use mathlib.Core.Path.{subst}
use trade_receiver.Prelude.{
  ℕ, ◌≤◌, ◌<◌, String, Bool, List, [], ◌∷◌, ◌++◌, ◌≡◌, refl, sym, ap, ◌∙◌, arith, leb, ◌==◌, filter,
  length, length-append, Bool-cases, inl, inr, eq_iff, if◌then◌else◌,
}
use trade_receiver.RateLimit.{RateLimit, Request, is_exempt, key_of, is_recent, count_hit, dispatch}

-- The middleware after some requests, with the times at which a request with a key was passed on.
pub record History : Type 0 where
  pub limiter : RateLimit
  pub passed : String → List ℕ

-- the log of passed requests that are counted
abbrev pub log : Bool → String → ℕ → (String → List ℕ) → String → List ℕ
log passes key now passed k =
    if passes then (if k == key then passed k ++ now ∷ [] else passed k) else passed k

unfoldable pub after_request : Request → ℕ → History → History
after_request request now h =
    let (passes, limiter) = dispatch request now h.limiter in
    record {
      limiter = limiter;
      passed =
          if is_exempt request.path then h.passed else log passes (key_of request) now h.passed;
    }

-- Requests one after the other, the clock never going back: the last is at `now`.
pub data Reach (limit : ℕ) : ℕ → History → Type 0 where
  start : Reach limit 0 (record {
    limiter = record { requests_per_minute = limit; hits = λ k. [] };
    passed = λ k. [];
  })
  next :
      {before : ℕ} {h : History} (request : Request) (now : ℕ)
      → before ≤ now
      → Reach limit before h
      → Reach limit now (after_request request now h)

filter-filter :
    (before now : ℕ) (ts : List ℕ)
    → before ≤ now
    → filter (is_recent now) (filter (is_recent before) ts) ≡ filter (is_recent now) ts
filter-filter before now [] h = refl
filter-filter before now (t ∷ ts) h = ground (arith, filter-filter before now ts h)

filter-append :
    (now : ℕ) (xs ys : List ℕ)
    → filter (is_recent now) (xs ++ ys) ≡ filter (is_recent now) xs ++ filter (is_recent now) ys
filter-append now [] ys = refl
filter-append now (x ∷ xs) ys = ground (arith, filter-append now xs ys)

length-filter : (now : ℕ) (ts : List ℕ) → length (filter (is_recent now) ts) ≤ length ts
length-filter now [] = omega arith
length-filter now (t ∷ ts) = ground (arith, length-filter now ts)

-- What the middleware remembers of a key: no more than the limit, and all that is still recent.
record Covers (limit before : ℕ) (window passed : List ℕ) : Type 0 where
  within : length window ≤ limit
  complete :
      (now : ℕ) → before ≤ now → filter (is_recent now) passed ≡ filter (is_recent now) window

Covers-later :
    (limit before now : ℕ) (window passed : List ℕ)
    → before ≤ now
    → Covers limit before window passed
    → Covers limit now window passed
Covers-later limit before now window passed h c = record {
  within = c.within;
  complete = λ later k. c.complete later (omega arith);
}

Covers-hit :
    (limit before now : ℕ) (window passed : List ℕ)
    → before ≤ now
    → length (filter (is_recent now) window) < limit
    → Covers limit before window passed
    → Covers limit now (filter (is_recent now) window ++ now ∷ []) (passed ++ now ∷ [])
Covers-hit limit before now window passed h room c = record {
  within = omega (arith, length-append (filter (is_recent now) window) (now ∷ []));
  complete = λ later k.
      filter-append later passed (now ∷ [])
      ∙ ap (λ ts. ts ++ filter (is_recent later) (now ∷ []))
          (c.complete later (omega arith) ∙ sym (filter-filter now later window k))
      ∙ sym (filter-append later (filter (is_recent now) window) (now ∷ []));
}

record IsBounded (limit now : ℕ) (h : History) : Type 0 where
  unchanged : h.limiter.requests_per_minute ≡ limit
  covers : (k : String) → Covers limit now (h.limiter.hits k) (h.passed k)

module _ (limit before now : ℕ) (h : History) (le : before ≤ now)
    (b : IsBounded limit before h) where
  IsBounded-later : IsBounded limit now h
  IsBounded-later = record {
    unchanged = b.unchanged;
    covers = λ k. Covers-later limit before now _ _ le (b.covers k);
  }

  -- the window of a key that is hit, and of another
  after_hit-Covers :
      (key k : String)
      → length (filter (is_recent now) (h.limiter.hits key)) < limit
      → Covers limit now
          (if k == key
            then filter (is_recent now) (h.limiter.hits key) ++ now ∷ []
            else h.limiter.hits k)
          (if k == key then h.passed k ++ now ∷ [] else h.passed k)
  after_hit-Covers key k room = elim (Bool-cases (k == key)) [
    | inl e ↦
        let same : k ≡ key = (eq_iff k key).0 e in
        rw e (
          subst
            (λ x.
              Covers limit now (filter (is_recent now) (h.limiter.hits key) ++ now ∷ [])
                (h.passed x ++ now ∷ []))
            (sym same)
            (Covers-hit limit before now (h.limiter.hits key) (h.passed key) le room
              (b.covers key)))
    | inr e ↦ rw e (Covers-later limit before now _ _ le (b.covers k))
  ]

  after_request-IsBounded : (request : Request) → IsBounded limit now (after_request request now h)
  unfolding after_request dispatch count_hit
  after_request-IsBounded request = elim (Bool-cases (is_exempt request.path)) [
    | inl exempt ↦ rw exempt IsBounded-later
    | inr counted ↦
        elim (Bool-cases (
          leb h.limiter.requests_per_minute
            (length (filter (is_recent now) (h.limiter.hits (key_of request)))))) [
              | inl full ↦ rw (counted, full) IsBounded-later
              | inr free ↦
                  rw (counted, free)
                    (record {
                      unchanged = b.unchanged;
                      covers =
                          λ k. after_hit-Covers (key_of request) k (ground (arith, b.unchanged));
                    })
            ]
  ]

Reach-IsBounded : {limit now : ℕ} {h : History} → Reach limit now h → IsBounded limit now h
Reach-IsBounded start = record {
  unchanged = refl;
  covers = λ k. record { within = omega arith; complete = λ _ _. refl };
}
Reach-IsBounded (next request now le r) =
    after_request-IsBounded _ _ now _ le (Reach-IsBounded r) request

-- After any sequence of requests in which the clock does not go back, and at any later time, no more
-- requests with a key were passed on within the last minute than the limit allows.
pub Reach-length :
    {limit now : ℕ} {h : History} (later : ℕ) (key : String)
    → Reach limit now h
    → now ≤ later
    → length (filter (is_recent later) (h.passed key)) ≤ limit
Reach-length {limit} {now} {h} later key r le =
    let c = (Reach-IsBounded r).covers key in
    let shrinks = length-filter later (h.limiter.hits key) in
    rw (c.complete later le) (omega (arith, shrinks, c.within))
