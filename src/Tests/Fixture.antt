-- ===== src/Tests/Fixture.antt =====
-- A concrete environment, and worlds of a few rows.
use Prim.Native.String.{◌++◌, len}
use text.Mathlib.TextPositions.{len-append}
use library_api.Prelude.{
  ◌==◌, ◌≡◌, ap, arith, eq_refl, leb, if◌then◌else◌, Option, some, ℕ, zero, suc, ◌+◌, String, refl,
  true, false, none, [], ◌∷◌,
}
use library_api.Prelude.Int.{pos}
use library_api.Datetime.{Datetime, days}
use library_api.Models.User.{User, UserRole}
use library_api.Models.Author.{Author}
use library_api.Models.Book.{Book}
use library_api.Models.Loan.{Loan, LoanStatus}
use library_api.Responses.{Document}
use library_api.External.{External, Jwt, Passlib}
use library_api.Tokens.{Claims, Decoded, whole_seconds}
use library_api.World.{World, Metrics, Db}
use library_api.Tests.Redis.{Store, memory}

-- A number in strokes.
abbrev pub strokes : ℕ → String
strokes zero = ""
strokes (suc n) = "|" ++ strokes n

-- The clock stands at noon of day 100, one microsecond later at each reading.
abbrev pub noon : Datetime
noon = days 100 + 43_200_000_000

-- A token that stands for its claims, or for no text of ours.
abbrev decode : Datetime → Option Claims → Decoded
decode now none = Decoded.invalid_token
decode now (some c) =
    if leb (whole_seconds c.exp) now
    then Decoded.expired_signature
    else Decoded.payload (some c.sub)

abbrev plain_jwt : Jwt (Option Claims)
plain_jwt = record { encode = some; decode = decode; decode-encode = λ now c. refl }

abbrev plain_passwords : Passlib
plain_passwords = record {
  hash = λ salt password. password;
  verify = λ given stored. given == stored;
  verify-hash = λ salt password. eq_refl password;
}

instance abbrev pub local : External
local = record {
  Value = Document;
  redis = memory;
  Token = Option Claims;
  jwt = plain_jwt;
  passlib = plain_passwords;
  jwt_expire_minutes = 60;
  clock = λ n. noon + n;
  local_date = λ n. 100;
  uuid = λ n. "id" ++ strokes n;
  str = strokes;
  email_str = some;
  ilike = λ text pattern. text == pattern;
  dumps = λ d. d;
  loads = λ d. d;
  is_empty = λ d. false;
  loads-dumps = λ d. refl;
  dumps_nonempty = λ d. refl;
}

len-strokes : (n : ℕ) → len (strokes n) ≡ n
len-strokes zero = refl
len-strokes (suc n) = ground (arith, len-append "|" (strokes n), len-strokes n)

pub uuid_injective : (m n : ℕ) → local.uuid m ≡ local.uuid n → m ≡ n
uuid_injective m n h = ground (
  arith,
  ap len h,
  len-append "id" (strokes m),
  len-append "id" (strokes n),
  len-strokes m,
  len-strokes n,
)

abbrev pub ana : User
ana = record {
  id = "ana";
  name = "Ana";
  email = "ana@example.com";
  password = "hash";
  created_at = 0;
  is_active = true;
  role = UserRole.user;
}

abbrev pub machado : Author
machado = record {
  id = "machado";
  name = "Machado de Assis";
  biography = none;
  created_at = 0;
  is_active = true;
}

abbrev pub casmurro : Book
casmurro = record {
  id = "casmurro";
  title = "Dom Casmurro";
  isbn = "1";
  category = "Romance";
  total_copies = pos 2;
  available_copies = pos 1;
  author_id = "machado";
  created_at = 0;
  is_active = true;
}

-- Lent on day 90 and due on day 97, three days before the clock.
abbrev pub late_loan : Loan
late_loan = record {
  id = "late";
  user_id = "ana";
  book_id = "casmurro";
  loan_date = days 90;
  due_date = days 97;
  returned_at = none;
  cancelled_at = none;
  status = LoanStatus.active;
  fine_amount = 0;
  fine_paid_at = none;
  fine_paid_amount = 0;
  renewal_count = 0;
  created_at = days 90;
}

abbrev pub no_metrics : Metrics
no_metrics = record {
  loans_created_total = 0;
  loans_returned_total = 0;
  loans_cancelled_total = 0;
  loans_renewed_total = 0;
  reservations_created_total = 0;
  reservations_cancelled_total = 0;
  notifications_sent_total = 0;
}

abbrev pub tables : Db
tables = record {
  users = ana ∷ [];
  authors = machado ∷ [];
  books = casmurro ∷ [];
  loans = late_loan ∷ [];
  reservations = [];
  notifications = [];
}

abbrev pub world : World Store
world = record { db = tables; cache = []; metrics = no_metrics; readings = 0; identifiers = 0 }
