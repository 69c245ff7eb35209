-- ===== src/NinjaTrader.antt =====
-- app/brokers/ninjatrader.py: futures orders over the device bridge, with a forward URL behind it.
pub mod Laws
pub mod AsBroker
use Prim.Native.String.{◌++◌ as append}
use trade_receiver.Prelude.{
  ℕ, String, Bool, true, false, not, Option, none, some, List, ◌==◌, ◌||◌, ◌&&◌, ltb, leb,
  if◌then◌else◌,
}
use trade_receiver.Prelude.Text.{upper}
use trade_receiver.Trade.{ValidatedFuturesTrade, NinjaTraderOrderPayload, OrderResult}
use trade_receiver.Session.{
  M, Order, bridge_order, forward_order, Result, ok, err, Error, value_error, ◌>>=◌, ◌>>◌, pure,
  raise, lift, send,
}

abbrev pub root_continuous : String → Bool
root_continuous s = s == "ES" || (s == "MES" || (s == "NQ" || s == "MNQ"))

unfoldable pub ninjatrader_futures_symbol : String → String
ninjatrader_futures_symbol symbol =
    if root_continuous (upper symbol) then append (upper symbol) "1!" else upper symbol

-- What the bridge answers to `push_order`: the fields of `OrderPushResult` that are read here.
pub record PushResult : Type 0 where
  pub success : Bool
  pub order_id : Option String
  pub error : Option String

-- The forward URL's answer: the status, and the order id or the id of a JSON object, if it is one.
pub data ResponseBody : Type 0 where
  object : Option String → Option String → ResponseBody
  not_object : ResponseBody

pub record Response : Type 0 where
  pub status_code : ℕ
  pub body : ResponseBody
  pub message : String

pub data Answer : Type 0 where
  responded : Response → Answer
  http_error : String → Answer
  raised : Error → Answer

-- One call of `push_order`: whether it put the order out to a device, and what it returns or raises.
-- The registry answers without sending when no connection is left, and when it knows the order's id
-- as delivered: then it reports a success ("duplicate_skipped").
pub record Push : Type 0 where
  pub put_out : Bool
  pub answer : Result (Option PushResult)

-- The device bridge and the network, as the adapter sees them; each answer depends on the orders
-- that have gone out.
pub record Transport : Type 0 where
  pub has_online_devices : List Order → String → Bool
  pub push_order : List Order → String → NinjaTraderOrderPayload → Push
  pub post : List Order → String → NinjaTraderOrderPayload → Answer

pub record NinjaTraderAdapter : Type 0 where
  pub forward_url : String
  pub webhook_secret : String

-- `external_id or secrets.token_hex(8)`
unfoldable pub build_order_payload : String → ValidatedFuturesTrade → Bool → NinjaTraderOrderPayload
build_order_payload token validated dry_run = record {
  id = if validated.external_id == "" then token else validated.external_id;
  symbol = validated.symbol;
  action = validated.action;
  order_type = validated.order_type;
  quantity = validated.quantity;
  stop_loss_ticks = validated.stop_loss_ticks;
  profit_target_ticks = validated.profit_target_ticks;
  dry_run = some dry_run;
}

abbrev pub failure : Option String → String → OrderResult
failure order_id message = record {
  success = false;
  order_id = order_id;
  take_profit_order_id = none;
  take_profit_ok = none;
  error = some message;
}

abbrev pub from_push : PushResult → OrderResult
from_push push = record {
  success = push.success;
  order_id = push.order_id;
  take_profit_order_id = none;
  take_profit_ok = none;
  error = push.error;
}

unfoldable pub ask_bridge : Transport → String → NinjaTraderOrderPayload → M (Option PushResult)
ask_bridge transport user_id body s =
    let push = transport.push_order s.orders user_id body in
    if push.put_out
    then (do send (bridge_order user_id body); lift push.answer) s
    else lift push.answer s

unfoldable pub online : Transport → String → M Bool
online transport user_id s = (ok (transport.has_online_devices s.orders user_id), s)

unfoldable pub execute_via_device_bridge :
    Transport → String → NinjaTraderOrderPayload → M (Option PushResult)
unfolding ask_bridge online
execute_via_device_bridge transport user_id body = do
  has_devices ← online transport user_id
  if has_devices then ask_bridge transport user_id body else pure none

abbrev pub nonempty_or : Option String → String → String
nonempty_or none d = d
nonempty_or (some t) d = if t == "" then d else t

-- Only `httpx.HTTPError` is caught. A body that is no JSON object cannot be extended with the marks
-- of a dry run.
unfoldable pub read_response : NinjaTraderOrderPayload → Bool → Answer → Result OrderResult
read_response body dry_run (http_error message) = ok (failure none message)
read_response body dry_run (raised e) = err e
read_response body dry_run (responded r) =
    let success = leb 200 r.status_code && ltb r.status_code 300 in
    elim r.body [
      | object order_id id ↦ ok (record {
        success = success;
        order_id = some (nonempty_or order_id (nonempty_or id body.id));
        take_profit_order_id = none;
        take_profit_ok = none;
        error = if success then none else some r.message;
      })
      | not_object ↦
          if dry_run
          then err (value_error "object is not a mapping")
          else ok (record {
            success = success;
            order_id = some body.id;
            take_profit_order_id = none;
            take_profit_ok = none;
            error = if success then none else some r.message;
          })
    ]

unfoldable pub ask_forward : Transport → String → NinjaTraderOrderPayload → Bool → M OrderResult
unfolding read_response
ask_forward transport url body dry_run s =
    lift (read_response body dry_run (transport.post s.orders url body)) s

unfoldable pub execute_via_forward_url :
    Transport → String → NinjaTraderOrderPayload → Bool → M OrderResult
execute_via_forward_url transport url body dry_run = do
  send (forward_order url body)
  ask_forward transport url body dry_run

-- neither the bridge nor a forward URL took the order
unfoldable pub undelivered : Transport → String → NinjaTraderOrderPayload → M OrderResult
unfolding online
undelivered transport user_id body = do
  has_devices ← online transport user_id
  pure (
      if has_devices
      then failure (some body.id)
          "NinjaTrader device bridge delivery failed and no forward URL is configured"
      else failure none "NinjaTrader forward URL is not configured")

unfoldable pub forward_or_fail :
    NinjaTraderAdapter → Transport → String → NinjaTraderOrderPayload → Bool → M OrderResult
forward_or_fail adapter transport user_id body dry_run =
    if adapter.forward_url == ""
    then undelivered transport user_id body
    else execute_via_forward_url transport adapter.forward_url body dry_run

-- the push counts if it succeeded, or if there is no forward URL to fall back to
unfoldable pub after_push :
    NinjaTraderAdapter
    → Transport
    → String
    → NinjaTraderOrderPayload
    → Bool
    → Option PushResult
    → M OrderResult
after_push adapter transport user_id body dry_run none =
    forward_or_fail adapter transport user_id body dry_run
after_push adapter transport user_id body dry_run (some push) =
    if push.success || adapter.forward_url == ""
    then pure (from_push push)
    else forward_or_fail adapter transport user_id body dry_run

-- `execute_futures_order` for a user; `token` is what `secrets.token_hex` would draw
unfoldable pub execute_futures_order :
    NinjaTraderAdapter → Transport → String → String → ValidatedFuturesTrade → Bool → M OrderResult
execute_futures_order adapter transport token user_id validated dry_run = do
  let body = build_order_payload token validated dry_run
  wss_result ← execute_via_device_bridge transport user_id body
  after_push adapter transport user_id body dry_run wss_result
