-- ===== src/Relay/Json.antt =====
-- What server/src/relay/sse.rs uses of serde_json.
use mistake_agent.Prelude.{ℕ, Option, Bool, List, String}
use mistake_agent.Relay.Text.{Text}

-- `Value` and its methods: `parse` is `from_str`, with none for an error; `index` is `&value[key]`,
-- the null value for a missing key.
pub record Json : Type 1 where
  pub Value : Type 0
  pub parse : Text → Option Value
  pub get : String → Value → Option Value
  pub index : String → Value → Value
  pub pointer : String → Value → Option Value
  pub is_object : Value → Bool
  pub as_str : Value → Option Text
  pub as_u64 : Value → Option ℕ
  pub as_array : Value → Option (List Value)
