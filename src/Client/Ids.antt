-- ===== src/Client/Ids.antt =====
-- src/datas/id.rs: the counters that the crate numbers its requests with. The argument is the value of the
-- static counter, of 32 bits; with the number comes its next value.
use for_mqtt_client.Base.{ℕ, ◌+◌, ◌%◌, ◌^◌, ◌==◌, ◌||◌, ltb, if◌then◌else◌}

-- `Id::id`
unfoldable pub id : ℕ → ℕ × ℕ
id counter = (counter, (counter + 1) % 2 ^ 32)

-- `SubscribeId::id`
unfoldable pub subscribe_id : ℕ → ℕ × ℕ
subscribe_id counter =
    if (counter == 0) || ltb 268_435_455 counter then (1, 1) else (counter, (counter + 1) % 2 ^ 32)
