-- ===== src/Platform.antt =====
-- What the program uses of Python and pydantic and does not implement. Each is a function that the
-- model takes as an argument; `to_text` is `str`, of which the source uses that a text is its own.
use genesis_ai.Prelude.{String, nat_eq, string_eq, ℕ}
use genesis_ai.Contracts.{Json, str}

pub record Platform : Type 0 where
  -- `json.dumps(value, sort_keys=True)`
  pub dumps : Json → String
  -- `hashlib.sha256(text.encode()).hexdigest()`
  pub sha256_hex : String → String
  -- `timestamp.astimezone(UTC).isoformat().replace("+00:00", "Z")`
  pub utc_text : ℕ → String
  -- A datetime in a `model_dump(mode="json")`
  pub datetime_text : ℕ → String
  -- `str(value)` of a value that is not a text
  pub other_text : Json → String

abbrev pub to_text : Platform → Json → String
to_text platform (str s) = s
to_text platform value = platform.other_text value
