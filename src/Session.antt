-- ===== src/Session.antt =====
-- The effects of a request: a SQLAlchemy session, the calls of a broker, and exceptions.
-- `db` is what the session sees, `saved` what is committed; `rivals` are alerts that other workers
-- commit before this request's next commit. An action returns or raises, and its state stays.
pub mod Rules
pub mod Keeps
use trade_receiver.Prelude.{
  ℕ, String, Bool, true, false, Option, List, [], ◌∷◌, ◌++◌, ◌&&◌, ◌==◌, any, if◌then◌else◌,
}
use trade_receiver.Prelude.Int.{ℤ, Decimal}
use trade_receiver.Trade.{NinjaTraderOrderPayload}
use trade_receiver.Tables.{Reason, InboundAlert, Db}

-- An order as it leaves the program: to a broker's interface (symbol, quantity, whether it opens,
-- mode, take-profit price), to the device bridge for a user, or to a forward URL.
pub data Order : Type 0 where
  option_order : String → ℤ → Bool → String → Option Decimal → Order
  bridge_order : String → NinjaTraderOrderPayload → Order
  forward_order : String → NinjaTraderOrderPayload → Order

pub data Error : Type 0 where
  http : ℕ → Reason → Error
  integrity_error : Error
  runtime_error : String → Error
  value_error : String → Error
  broker_error : String → Error

pub data Result {ℓ} (A : Type ℓ) : Type ℓ where
  ok : A → Result A
  err : Error → Result A

pub record Session : Type 0 where
  pub db : Db
  pub saved : Db
  pub rivals : List InboundAlert
  pub orders : List Order

abbrev pub M : Type 0 → Type 0
M A = Session → Result A × Session

infixl 5 ◌>>=◌ ◌>>◌
abbrev pub ◌>>=◌ : {A B : Type 0} → M A → (A → M B) → M B
◌>>=◌ m f s = let (r, s') = m s in elim r [ ok a ↦ f a s' | err e ↦ (err e, s') ]

abbrev pub ◌>>◌ : {B : Type 0} → M (Unit {0}) → M B → M B
m >> k = m >>= λ _. k

abbrev pub pure : {A : Type 0} → A → M A
pure a s = (ok a, s)

abbrev pub raise : {A : Type 0} → Error → M A
raise e s = (err e, s)

-- the answer of an external component, which may raise
abbrev pub lift : {A : Type 0} → Result A → M A
lift r s = (r, s)

abbrev pub get_db : M Db
get_db s = (ok s.db, s)

abbrev pub get_orders : M (List Order)
get_orders s = (ok s.orders, s)

abbrev pub modify_db : (Db → Db) → M (Unit {0})
modify_db f s = (ok tt, record s { db = f s.db })

abbrev pub send : Order → M (Unit {0})
send o s = (ok tt, record s { orders = s.orders ++ o ∷ [] })

-- the unique index on (user_id, idempotency_key)
abbrev pub same_key : String → String → InboundAlert → Bool
same_key user_id key a = a.user_id == user_id && a.idempotency_key == key

-- some alert of `new` has the key of one of `old`
unfoldable pub clash : List InboundAlert → List InboundAlert → Bool
clash [] old = false
clash (a ∷ new) old = if any (same_key a.user_id a.idempotency_key) old then true else clash new old

-- `db.commit()`: rows that other workers committed come first, and the unique index is checked.
unfoldable pub commit : M (Unit {0})
unfolding clash
commit s =
    if clash s.rivals s.db.alerts
    then (
      err integrity_error,
      record s { saved = record s.saved { alerts = s.rivals ++ s.saved.alerts }; rivals = [] },
    )
    else let merged = record s.db { alerts = s.rivals ++ s.db.alerts } in
      (ok tt, record s { db = merged; saved = merged; rivals = [] })

-- `db.rollback()`, and what closing a session without a commit leaves
unfoldable pub rollback : M (Unit {0})
rollback s = (ok tt, record s { db = s.saved })
