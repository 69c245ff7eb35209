-- ===== src/Session/Keeps.antt =====
-- Rules for actions that keep a property of the session, whether they return or raise.
use trade_receiver.Prelude.{Bool, true, false, if◌then◌else◌}
use trade_receiver.Session.{Session, Result, ok, err, M, ◌>>=◌, lift}

pub record Keeps {A : Type 0} (P : Session → Type 0) (m : M A) : Type 0 where
  pub keeps : (s : Session) → P s → P (m s).1

module _ (P : Session → Type 0) where
  pub Keeps-pure : {A : Type 0} (r : Result A) → Keeps P (lift r)
  Keeps-pure r = record { keeps = λ s h. h }

  pub Keeps-if :
      {A : Type 0} (b : Bool) (m n : M A) → Keeps P m → Keeps P n → Keeps P (if b then m else n)
  Keeps-if true m n p q = p
  Keeps-if false m n p q = q

  bind_keeps :
      {A B : Type 0} (r : Result A) (s : Session) (f : A → M B)
      → P s
      → ((a : A) → Keeps P (f a))
      → P ((lift r >>= f) s).1
  bind_keeps (ok a) s f h k = (k a).keeps s h
  bind_keeps (err e) s f h k = h

  pub Keeps-bind :
      {A B : Type 0} (m : M A) (f : A → M B)
      → Keeps P m
      → ((a : A) → Keeps P (f a))
      → Keeps P (m >>= f)
  Keeps-bind m f h k = record { keeps = λ s p. bind_keeps (m s).0 (m s).1 f (h.keeps s p) k }
