-- ===== src/Tokens.antt =====
-- What app/config/security/jwt.py puts into a token, and what PyJWT's `decode` answers.
use library_api.Prelude.{ℕ, ◌*◌, ◌/◌, String, Option}
use library_api.Datetime.{Datetime}

-- The payload that `create_access_token` signs.
pub record Claims : Type 0 where
  pub sub : String
  pub exp : Datetime
  pub role : String

-- A payload as `get_current_user` reads it (`payload.get("sub")`), or the class of the exception.
pub data Decoded : Type 0 where
  payload : Option String → Decoded
  expired_signature : Decoded
  invalid_token : Decoded

-- `exp` is written as a whole number of seconds.
abbrev pub whole_seconds : Datetime → Datetime
whole_seconds d = d / 1_000_000 * 1_000_000

-- `timedelta(minutes=n)`
abbrev pub minutes : ℕ → ℕ
minutes n = n * 60_000_000
