-- ===== src/Tasks/Ping.antt =====
-- src/tasks/task_ping/mod.rs
use for_mqtt_client.Base.{ℕ, zero, suc, Bool, true, false, if◌then◌else◌}
use for_mqtt_client.Bytes.{BytesCrate}
use for_mqtt_client.Packet.Ping.{ping_req}
use for_mqtt_client.Hub.Data.{ping_success, ping_fail}
use for_mqtt_client.Hub.World.{EventBus}
use for_mqtt_client.Task.{Task, ◌>>=◌, ◌>>◌, return}
use for_mqtt_client.Tasks.World.{
  CommonErr, Exchange, Timed, in_time, to_hub, recv, timeout, dispatch, tx_network_default,
}

-- A `PingResp` carries nothing.
abbrev pub PingResp : Type 0
PingResp = Unit {0}

-- `if let Ok(Ok(_)) = result`
abbrev pub is_in_time : {E A : Type 0} → Timed E A → Bool
is_in_time (in_time a) = true
is_in_time _ = false

module _ ⦃b : BytesCrate⦄ ⦃bus : EventBus⦄ where
  -- What the first loop does when the last attempt to send has failed.
  abbrev pub last_failed : ℕ → Task (Exchange PingResp) CommonErr (Unit {0})
  last_failed zero = dispatch (to_hub ping_fail)
  last_failed _ = return tt

  abbrev pub on_sent :
      ℕ
      → Task (Exchange PingResp) CommonErr ℕ
      → Timed CommonErr (Unit {0})
      → Task (Exchange PingResp) CommonErr ℕ
  on_sent left retry result = if is_in_time result then return (suc left) else retry

  -- The first loop, by `timeout_time`, which it returns.
  unfoldable pub send_ping : ℕ → Task (Exchange PingResp) CommonErr ℕ
  send_ping zero = return zero
  send_ping (suc left) =
      let retry = last_failed left >> send_ping left in
      timeout (tx_network_default ping_req) >>= on_sent left retry

  abbrev pub on_resp :
      Task (Exchange PingResp) CommonErr Bool
      → Timed CommonErr PingResp
      → Task (Exchange PingResp) CommonErr Bool
  on_resp retry result =
      if is_in_time result then dispatch (to_hub ping_success) >> return true else retry

  -- The second loop; whether the response has come.
  unfoldable pub wait_for_resp : ℕ → Task (Exchange PingResp) CommonErr Bool
  wait_for_resp zero = return false
  wait_for_resp (suc left) = timeout recv >>= on_resp (wait_for_resp left)

  -- `return Ok(())` in the second loop.
  abbrev pub unless_done : Bool → Task (Exchange PingResp) CommonErr (Unit {0})
  unless_done true = return tt
  unless_done false = dispatch (to_hub ping_fail)

  -- `TaskPing::run`
  unfoldable pub ping : Task (Exchange PingResp) CommonErr (Unit {0})
  ping = do left ← send_ping 3; answered ← wait_for_resp left; unless_done answered
