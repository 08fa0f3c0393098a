-- ===== src/Client/Payload.antt =====
-- src/datas/payload.rs
use for_mqtt_client.Base.{ℕ, List, length}
use for_mqtt_client.Properties.{Text}

pub data Payload : Type 0 where
  string : Text → Payload
  bytes : List ℕ → Payload

unfoldable pub bytes_len : Payload → ℕ
bytes_len (string val) = length val
bytes_len (bytes val) = length val

unfoldable pub as_bytes : Payload → List ℕ
as_bytes (string val) = val
as_bytes (bytes val) = val
