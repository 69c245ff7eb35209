-- ===== src/RateLimit.antt =====
-- app/middleware/rate_limit.py. Times are milliseconds; `hits`, a defaultdict, is a function.
pub mod Laws
use Prim.Native.String.{◌++◌ as append}
use trade_receiver.Prelude.{
  ℕ, ◌-◌, String, Bool, true, false, Option, none, some, List, [], ◌∷◌, ◌++◌, ◌==◌, ◌||◌, ltb, leb,
  filter, length, if◌then◌else◌,
}
use trade_receiver.Prelude.Text.{starts_with}

pub record RateLimit : Type 0 where
  pub requests_per_minute : ℕ
  pub hits : String → List ℕ

-- A request: the host of its client, if it is known, and its path.
pub record Request : Type 0 where
  pub client : Option String
  pub path : String

abbrev pub is_exempt : String → Bool
is_exempt path =
    path == "/health"
    || (path == "/docs" || (path == "/openapi.json" || starts_with path "/desktop/"))

abbrev pub host_or : Option String → String
host_or none = "unknown"
host_or (some host) = host

unfoldable pub key_of : Request → String
key_of request = append (host_or request.client) (append ":" request.path)

-- `now - t < 60`
abbrev pub is_recent : ℕ → ℕ → Bool
is_recent now t = ltb (now - t) 60000

unfoldable pub count_hit : String → ℕ → RateLimit → Bool × RateLimit
count_hit key now r =
    let window = filter (is_recent now) (r.hits key) in
    if leb r.requests_per_minute (length window)
    then (false, r)
    else (true, record r { hits = λ k. if k == key then window ++ now ∷ [] else r.hits k })

-- Whether the request is passed on; otherwise the answer is 429.
unfoldable pub dispatch : Request → ℕ → RateLimit → Bool × RateLimit
dispatch request now r =
    if is_exempt request.path then (true, r) else count_hit (key_of request) now r
