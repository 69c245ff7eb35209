-- ===== src/Tests/FuturesRuns.antt =====
-- Futures orders on concrete data.
use trade_receiver.Prelude.{true, refl, ◌⊎◌, inl, inr, In}
use trade_receiver.Prelude.Int.{pos, ◌≤ℤ◌, max_ℤ}
use trade_receiver.Session.{bridge_order, Order, commit, clash}
use trade_receiver.Execution.{add_execution, mark_processed}
use trade_receiver.NinjaTrader.{
  build_order_payload, execute_futures_order, execute_via_device_bridge, online, ask_bridge,
  after_push, forward_or_fail, execute_via_forward_url, ask_forward, read_response,
}
use trade_receiver.NinjaTrader.Laws.{IsDelivered, execute_futures_order-IsDelivered}
use trade_receiver.Futures.{
  execute_futures_trade, submit_futures, record_futures, compute_futures_quantity,
}
use trade_receiver.Futures.Laws.{
  body_of, IsDry, execute_futures_trade-IsDry, compute_futures_quantity_bounds,
}
use trade_receiver.Samples.{trader, es_trade, ninjatrader, network, start}

execute_futures_order-IsDelivered_example :
    IsDelivered ninjatrader network "u1"
      (build_order_payload "t0" es_trade true)
      start
      (execute_futures_order ninjatrader network "t0" "u1" es_trade true start)
execute_futures_order-IsDelivered_example =
    execute_futures_order-IsDelivered ninjatrader network "t0" "u1" es_trade true start

abbrev first_order : Order
first_order = bridge_order "u1" (body_of trader es_trade "t0")

is_sent :
    In first_order (execute_futures_trade trader 1 es_trade ninjatrader network "t0" start).1.orders
unfolding execute_futures_trade submit_futures record_futures execute_futures_order
    execute_via_device_bridge online ask_bridge after_push forward_or_fail execute_via_forward_url
    ask_forward read_response add_execution mark_processed commit clash
is_sent = inl refl

execute_futures_trade-IsDry_example : ⊥ ⊎ IsDry first_order
execute_futures_trade-IsDry_example =
    execute_futures_trade-IsDry trader 1 es_trade ninjatrader network "t0" start first_order refl
      refl (inr refl) is_sent

es_within_bounds :
    let q = compute_futures_quantity trader es_trade in
    (pos 1 ≤ℤ q) × (q ≤ℤ max_ℤ (pos 1) (pos 2)) × (q ≤ℤ max_ℤ (pos 1) (pos 5))
es_within_bounds = compute_futures_quantity_bounds trader es_trade
