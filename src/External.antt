-- ===== src/External.antt =====
-- What the application uses and this repository does not implement: the Redis server behind
-- redis-py, `json`, PyJWT, passlib, pydantic's `EmailStr`, the clock, and the generator of identifiers.
use Prim.Native.String.{◌++◌}
use library_api.Prelude.{
  ℕ, String, ◌≡◌, Bool, true, false, Option, none, some, List, [], ◌∷◌, ◌==◌, ◌||◌, leb,
  if◌then◌else◌,
}
use library_api.Datetime.{Datetime, Date}
use library_api.Tokens.{Claims, Decoded, whole_seconds}
use library_api.Responses.{Document}

abbrev pub listed : String → List String → Bool
listed k [] = false
listed k (j ∷ l) = (j == k) || listed k l

-- The commands that the cache sends, with what the documentation of Redis says of them at one
-- moment. `expire` drops what is older than its time to live.
pub record Redis (Value : Type 0) : Type 1 where
  pub Store : Type 0
  pub get : Store → String → Option Value
  pub set : Store → String → Value → ℕ → Store
  pub delete : Store → String → Store
  pub scan_iter : Store → String → List String
  -- Does a key match a glob-style pattern?
  pub matches : String → String → Bool
  -- Is a text free of the characters that are special in a pattern?
  pub is_plain : String → Bool
  pub get-set :
      (s : Store) (k : String) (v : Value) (ttl : ℕ) (j : String)
      → get (set s k v ttl) j ≡ (if k == j then some v else get s j)
  pub get-delete :
      (s : Store) (k j : String) → get (delete s k) j ≡ (if k == j then none else get s j)
  -- A full iteration returns every key that is there, and only keys that match.
  pub scan_complete :
      (s : Store) (p k : String) (v : Value)
      → get s k ≡ some v
      → matches p k ≡ true
      → listed k (scan_iter s p) ≡ true
  pub scan_sound : (s : Store) (p k : String) → listed k (scan_iter s p) ≡ true → matches p k ≡ true
  -- A pattern that ends in its only special character, `*`, matches what begins with its text.
  pub matches-star : (p rest : String) → is_plain p ≡ true → matches (p ++ "*") (p ++ rest) ≡ true

-- PyJWT with the key of the settings. `decode` reads the clock.
pub record Jwt (Token : Type 0) : Type 0 where
  pub encode : Claims → Token
  pub decode : Datetime → Token → Decoded
  -- A token is accepted until the second of its `exp`.
  pub decode-encode :
      (now : Datetime) (c : Claims)
      → decode now (encode c) ≡ (
          if leb (whole_seconds c.exp) now
          then Decoded.expired_signature
          else Decoded.payload (some c.sub))

-- passlib's context; the number stands for the salt.
pub record Passlib : Type 0 where
  pub hash : ℕ → String → String
  pub verify : String → String → Bool
  pub verify-hash : (salt : ℕ) (password : String) → verify password (hash salt password) ≡ true

pub record External : Type 1 where
  -- The texts that `json` writes.
  pub Value : Type 0
  pub redis : Redis Value
  pub open redis use *
  -- The texts of tokens.
  pub Token : Type 0
  pub jwt : Jwt Token
  pub open jwt use *
  pub passlib : Passlib
  pub open passlib use *
  -- `settings.JWT_EXPIRE_MINUTES`
  pub jwt_expire_minutes : ℕ
  pub clock : ℕ → Datetime
  pub local_date : ℕ → Date
  pub uuid : ℕ → String
  -- `str` of an `int`
  pub str : ℕ → String
  -- The address that pydantic's `EmailStr` makes of a text, where it does not refuse it
  pub email_str : String → Option String
  -- PostgreSQL's `ILIKE`, a text and a pattern
  pub ilike : String → String → Bool
  pub dumps : Document → Value
  pub loads : Value → Document
  -- `not data`
  pub is_empty : Value → Bool
  -- What is read back is the same document as the response models see it, and no text is empty.
  pub loads-dumps : (d : Document) → loads (dumps d) ≡ d
  pub dumps_nonempty : (d : Document) → is_empty (dumps d) ≡ false
