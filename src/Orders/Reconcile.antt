-- ===== src/Orders/Reconcile.antt =====
-- `reconcile_submitted_closes`: resting closes are brought up to date from the broker, row by row.
use trade_receiver.Prelude.{
  ℕ, zero, suc, String, Bool, true, false, not, Option, none, some, List, [], ◌∷◌, ◌==◌, ◌&&◌, ◌||◌,
  eqb, if◌then◌else◌, update,
}
use trade_receiver.Prelude.Int.{Decimal}
use trade_receiver.Tables.{ExecutionStatus, filled, submitted, TradeExecution, Db}
use trade_receiver.Session.{M, ◌>>=◌, ◌>>◌, pure, get_db, modify_db, commit}
use trade_receiver.Broker.{BrokerAdapter}
use trade_receiver.Orders.Fill.{or_else, resolve_fill}
use trade_receiver.Orders.Pnl.{mentions_close, compute_close_pnl}

abbrev pub is_submitted : ExecutionStatus → Bool
is_submitted submitted = true
is_submitted _ = false

-- the first `limit` submitted rows of the user, oldest first
unfoldable pub submitted_rows : ℕ → String → List TradeExecution → List TradeExecution
submitted_rows zero user_id rows = []
submitted_rows (suc limit) user_id [] = []
submitted_rows (suc limit) user_id (row ∷ rows) =
    let hit = row ∷ submitted_rows limit user_id rows in
    let miss = submitted_rows (suc limit) user_id rows in
    if row.user_id == user_id && is_submitted row.status then hit else miss

abbrev pub has_id : ℕ → TradeExecution → Bool
has_id id row = eqb row.id id

-- `row.status = status`, and the price if there is one
unfoldable pub set_fill : ℕ → ExecutionStatus → Option Decimal → Db → Db
set_fill id status fill_price db = record db {
  executions =
      update (has_id id)
        (λ r. record r { status = status; fill_price = or_else fill_price r.fill_price })
        db.executions;
}

-- `row.pnl = compute_close_pnl(...)`, which reads the rows as they are now
unfoldable pub set_pnl : ℕ → Option Decimal → Db → Db
set_pnl id fill_price db = record db {
  executions =
      update (has_id id)
        (λ r. record r {
          pnl = compute_close_pnl db.executions r.user_id r.contract_symbol r.quantity fill_price;
        })
        db.executions;
}

unfoldable pub settle : ℕ → ExecutionStatus → Option Decimal → Db → Db
settle id filled fill_price db = set_pnl id fill_price (set_fill id filled fill_price db)
settle id status fill_price db = set_fill id status fill_price db

unfoldable pub reconcile_row : BrokerAdapter → TradeExecution → M Bool
reconcile_row adapter row = elim row.broker_order_id [
  | none ↦ pure false
  | some order_id ↦
      if order_id == "" || not (mentions_close row.intent_json) then pure false else (do
        (status, fill_price) ← resolve_fill adapter (some order_id) row.fill_price
        if is_submitted status
            then pure false
            else (do modify_db (settle row.id status fill_price); pure true))
]

-- the loop, which counts the rows that it changed
unfoldable pub reconcile_rows : BrokerAdapter → List TradeExecution → ℕ → M ℕ
reconcile_rows adapter [] updated = pure updated
reconcile_rows adapter (row ∷ rows) updated = do
  changed ← reconcile_row adapter row
  reconcile_rows adapter rows (if changed then suc updated else updated)

-- the default limit is 20
unfoldable pub reconcile_submitted_closes : String → BrokerAdapter → ℕ → M ℕ
reconcile_submitted_closes user_id adapter limit = do
  db ← get_db
  updated ← reconcile_rows adapter (submitted_rows limit user_id db.executions) 0
  if eqb updated 0 then pure updated else (do commit; pure updated)
