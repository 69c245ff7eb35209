-- ===== src/Eterminal/Laws.antt =====
-- The intent that an eterminal signal stands for.
use trade_receiver.Prelude.{
  ℕ, ◌+◌, ◌*◌, ◌/◌, ◌%◌, ◌≤◌, ◌<◌, String, false, not, ◌≡◌, ◌⊎◌, ◌==◌, ◌||◌, arith, eq_iff,
}
use trade_receiver.Prelude.Int.{pos}
use trade_receiver.Trade.{Date, TradeIntent}
use trade_receiver.Session.{ok}
use trade_receiver.Json.{Json, string, object, Fields}
use trade_receiver.Eterminal.{Library, Settings, value_of, target_price, side_of, intent_of}

-- A strike next to a price: a positive multiple of five, at most two and a half below the price
-- and less than that above it, or exactly that.
pub record IsNearest (price strike : ℕ) : Type 0 where
  pub positive : 0 < strike
  pub multiple : strike % 50000 ≡ 0
  pub above : strike ≤ price + 25000
  pub below : price < strike + 25000

nearest : (n : ℕ) → 0 < (n + 25000) / 50000 * 50000 → IsNearest n ((n + 25000) / 50000 * 50000)
nearest n h = record {
  positive = h;
  multiple = omega arith;
  above = omega arith;
  below = omega arith;
}

-- What a body that stands for an intent is.
pub record IsSignal (library : Library) (settings : Settings) (today : Date) (body : Fields)
    (intent : TradeIntent) : Type 0 where
  pub signal : Fields
  pub price : ℕ
  pub strike : ℕ
  pub typed : value_of "type" body ≡ string "signal"
  pub shaped : value_of "signal" body ≡ object signal
  pub sided : (side_of library signal ≡ "long") ⊎ (side_of library signal ≡ "short")
  pub priced_at : target_price library body ≡ ok (pos price)
  pub near : IsNearest price strike
  pub made : intent ≡ intent_of library settings today signal (side_of library signal) (pos strike)

module _ (library : Library) (settings : Settings) (today : Date) where
  allowed :
      (side : String)
      → (side ≡ "long") ⊎ (side ≡ "short")
      → not (side == "long" || side == "short") ≡ false
  allowed side h = ground (arith, eq_iff side "long", eq_iff side "short")
