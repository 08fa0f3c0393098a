-- ===== src/Tasks/PingWays.antt =====
-- The ways that the ping task of src/tasks/task_ping/mod.rs can go, read off what it is given.
use for_mqtt_client.Base.{ℕ, zero, suc, ◌+◌, ◌<◌, ◌≡◌, ap, List, [], ◌∷◌, ◌++◌, length, All, arith}
use for_mqtt_client.Outcome.{Outcome, ok, err}
use for_mqtt_client.Bytes.{BytesCrate}
use for_mqtt_client.Packet.Ping.{ping_req}
use for_mqtt_client.Hub.Data.{ping_success, ping_fail}
use for_mqtt_client.Task.{Stop, waits}
use for_mqtt_client.Tasks.World.{
  CommonErr, Event, receipt, receipt_lost, packet, bus_closed, elapsed, Exchange, TaskAction,
  to_network, to_hub,
}
use for_mqtt_client.Tasks.Ping.{PingResp}

-- What makes an attempt to send the ping fail: the receipt is lost, or does not come in time.
abbrev pub IsUnsent : Event PingResp → Type 0
IsUnsent receipt_lost = Unit
IsUnsent elapsed = Unit
IsUnsent _ = ⊥

-- What makes an attempt to receive the response fail: the bus is closed, or the time is over.
abbrev pub IsMissed : Event PingResp → Type 0
IsMissed bus_closed = Unit
IsMissed elapsed = Unit
IsMissed _ = ⊥

-- Nothing that ends an attempt to send, and nothing that ends one to receive, comes first.
abbrev pub HasNoReceipt : List (Event PingResp) → Type 0
HasNoReceipt (receipt ∷ inputs) = ⊥
HasNoReceipt (receipt_lost ∷ inputs) = ⊥
HasNoReceipt (elapsed ∷ inputs) = ⊥
HasNoReceipt _ = Unit

abbrev pub HasNoPacket : List (Event PingResp) → Type 0
HasNoPacket (packet p ∷ inputs) = ⊥
HasNoPacket (bus_closed ∷ inputs) = ⊥
HasNoPacket (elapsed ∷ inputs) = ⊥
HasNoPacket _ = Unit

-- The actions behind some more pings.
abbrev pub pings : ⦃b : BytesCrate⦄ → ℕ → List TaskAction → List TaskAction
pings zero done = done
pings (suc n) done = pings n (to_network ping_req ∷ done)

module _ ⦃b : BytesCrate⦄ where
  -- The second loop with `n` attempts and the end of the task, on these inputs, behind the actions `done`.
  pub data Heard (n : ℕ) (inputs : List (Event PingResp)) (done : List TaskAction)
      : Exchange PingResp × Outcome (Stop CommonErr) (Unit {0}) → Type 0 where
    heard :
        (ms rest : List (Event PingResp)) (p : PingResp) (y : Exchange PingResp)
        → All IsMissed ms
        → length ms < n
        → inputs ≡ ms ++ (packet p ∷ rest)
        → y.done ≡ to_hub ping_success ∷ done
        → Heard n inputs done (y, ok tt)
    silence :
        (ms rest : List (Event PingResp)) (y : Exchange PingResp)
        → All IsMissed ms
        → length ms ≡ n
        → inputs ≡ ms ++ rest
        → y.done ≡ to_hub ping_fail ∷ done
        → Heard n inputs done (y, ok tt)
    pending :
        (ms rest : List (Event PingResp)) (y : Exchange PingResp)
        → All IsMissed ms
        → length ms < n
        → inputs ≡ ms ++ rest
        → HasNoPacket rest
        → y.done ≡ done
        → Heard n inputs done (y, err waits)

  -- A ping task with `n` attempts, on these inputs, behind the actions `done`.
  pub data PingEnds (n : ℕ) (inputs : List (Event PingResp)) (done : List TaskAction)
      : Exchange PingResp × Outcome (Stop CommonErr) (Unit {0}) → Type 0 where
    -- The response comes.
    responded :
        (fs ms rest : List (Event PingResp)) (p : PingResp) (y : Exchange PingResp)
        → All IsUnsent fs
        → All IsMissed ms
        → length fs + length ms < n
        → inputs ≡ fs ++ (receipt ∷ (ms ++ (packet p ∷ rest)))
        → y.done ≡ to_hub ping_success ∷ pings (suc (length fs)) done
        → PingEnds n inputs done (y, ok tt)
    -- The ping is sent, and every attempt that is left to receive the response fails.
    not_responded :
        (fs ms rest : List (Event PingResp)) (y : Exchange PingResp)
        → All IsUnsent fs
        → All IsMissed ms
        → length fs < n
        → length fs + length ms ≡ n
        → inputs ≡ fs ++ (receipt ∷ (ms ++ rest))
        → y.done ≡ to_hub ping_fail ∷ pings (suc (length fs)) done
        → PingEnds n inputs done (y, ok tt)
    -- Every attempt to send fails.
    not_sent :
        (fs rest : List (Event PingResp)) (y : Exchange PingResp)
        → All IsUnsent fs
        → length fs ≡ n
        → inputs ≡ fs ++ rest
        → y.done ≡ to_hub ping_fail ∷ to_hub ping_fail ∷ pings n done
        → PingEnds n inputs done (y, ok tt)
    -- What would end an attempt has not come yet.
    waits_for_receipt :
        (fs rest : List (Event PingResp)) (y : Exchange PingResp)
        → All IsUnsent fs
        → length fs < n
        → inputs ≡ fs ++ rest
        → HasNoReceipt rest
        → y.done ≡ pings (suc (length fs)) done
        → PingEnds n inputs done (y, err waits)
    waits_for_response :
        (fs ms rest : List (Event PingResp)) (y : Exchange PingResp)
        → All IsUnsent fs
        → All IsMissed ms
        → length fs + length ms < n
        → inputs ≡ fs ++ (receipt ∷ (ms ++ rest))
        → HasNoPacket rest
        → y.done ≡ pings (suc (length fs)) done
        → PingEnds n inputs done (y, err waits)

  -- One more attempt that fails.
  pub missed :
      {n : ℕ} {inputs : List (Event PingResp)} {done : List TaskAction}
      {y : Exchange PingResp × Outcome (Stop CommonErr) (Unit {0})} (e : Event PingResp)
      → IsMissed e
      → Heard n inputs done y
      → Heard (suc n) (e ∷ inputs) done y
  missed e m (heard ms rest p y h l i d) =
      heard (e ∷ ms) rest p y (m, h) (omega (arith, l)) (ap (λ k. e ∷ k) i) d
  missed e m (silence ms rest y h l i d) =
      silence (e ∷ ms) rest y (m, h) (ap suc l) (ap (λ k. e ∷ k) i) d
  missed e m (pending ms rest y h l i t d) =
      pending (e ∷ ms) rest y (m, h) (omega (arith, l)) (ap (λ k. e ∷ k) i) t d

  pub unsent :
      {n : ℕ} {inputs : List (Event PingResp)} {done : List TaskAction}
      {y : Exchange PingResp × Outcome (Stop CommonErr) (Unit {0})} (e : Event PingResp)
      → IsUnsent e
      → PingEnds n inputs (to_network ping_req ∷ done) y
      → PingEnds (suc n) (e ∷ inputs) done y
  unsent e m (responded fs ms rest p y h k l i d) =
      responded (e ∷ fs) ms rest p y (m, h) k (omega (arith, l)) (ap (λ k. e ∷ k) i) d
  unsent e m (not_responded fs ms rest y h k l s i d) =
      not_responded (e ∷ fs) ms rest y (m, h) k (omega (arith, l)) (omega (arith, s))
        (ap (λ k. e ∷ k) i) d
  unsent e m (not_sent fs rest y h l i d) =
      not_sent (e ∷ fs) rest y (m, h) (ap suc l) (ap (λ k. e ∷ k) i) d
  unsent e m (waits_for_receipt fs rest y h l i t d) =
      waits_for_receipt (e ∷ fs) rest y (m, h) (omega (arith, l)) (ap (λ k. e ∷ k) i) t d
  unsent e m (waits_for_response fs ms rest y h k l i t d) =
      waits_for_response (e ∷ fs) ms rest y (m, h) k (omega (arith, l)) (ap (λ k. e ∷ k) i) t d

  -- The ping is sent at the first attempt.
  pub sent :
      {n : ℕ} {inputs : List (Event PingResp)} {done : List TaskAction}
      {y : Exchange PingResp × Outcome (Stop CommonErr) (Unit {0})}
      → Heard (suc n) inputs (to_network ping_req ∷ done) y
      → PingEnds (suc n) (receipt ∷ inputs) done y
  sent (heard ms rest p y h l i d) =
      responded [] ms rest p y tt h (omega (arith, l)) (ap (λ k. receipt ∷ k) i) d
  sent (silence ms rest y h l i d) =
      not_responded [] ms rest y tt h (omega arith) (omega (arith, l)) (ap (λ k. receipt ∷ k) i) d
  sent (pending ms rest y h l i t d) =
      waits_for_response [] ms rest y tt h (omega (arith, l)) (ap (λ k. receipt ∷ k) i) t d
