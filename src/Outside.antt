-- ===== src/Outside.antt =====
-- What the agent takes from elsewhere: JSON values (serde_json), SHA-256 and hexadecimal (sha2,
-- hex), Unicode's tables of characters, and the version that the build sets.
use devicekit.Prelude.{ℕ, Bool, Option}
use devicekit.Prelude.Text.{Str}
use devicekit.Protocol.{Bytes}

pub record Outside : Type 1 where
  pub Value : Type 0
  -- `serde_json::from_str::<Option<Value>>`, `none` for an error; and `serde_json::to_string`.
  pub from_str : Str → Option (Option Value)
  pub to_string : Value → Str
  -- `serde_json::from_slice::<Value>`, `none` for an error.
  pub from_slice : Bytes → Option Value
  pub sha256 : Bytes → Bytes
  pub hex_encode : Bytes → Str
  -- `char::is_alphanumeric`
  pub is_alphanumeric : ℕ → Bool
  -- `str::to_lowercase` and `to_uppercase`
  pub to_lowercase : Str → Str
  pub to_uppercase : Str → Str
  -- `CARGO_PKG_VERSION`
  pub version : Str
