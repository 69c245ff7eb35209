-- ===== src/MarketHours.antt =====
-- app/services/market_hours.py. A zoned time has its weekday (Monday is 0) and its time of day in
-- New York as seconds since midnight; the conversion of time zones is the standard library's. The code
-- knows no holidays and no early closes.
use trade_receiver.Prelude.{ℕ, Bool, false, ◌&&◌, ltb, leb, if◌then◌else◌}

pub record EtTime : Type 0 where
  pub weekday : ℕ
  pub clock : ℕ

abbrev pub rth_open : ℕ
rth_open = 34200

abbrev pub rth_close : ℕ
rth_close = 57600

unfoldable pub is_rth : EtTime → Bool
is_rth current =
    if leb 5 current.weekday
    then false
    else leb rth_open current.clock && ltb current.clock rth_close
