-- ===== src/Packet/Ping.antt =====
-- src/protocol/packet/ping.rs
use for_mqtt_client.Base.{ℕ, List, [], ◌∷◌}
use for_mqtt_client.Bytes.{BytesCrate}

module _ ⦃b : BytesCrate⦄ where
  -- `PingReq::bytes`
  unfoldable pub ping_req : List ℕ
  ping_req = b.extend_from_slice [] (0xC0 ∷ 0x00 ∷ [])
