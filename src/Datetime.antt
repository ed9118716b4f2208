-- ===== src/Datetime.antt =====
-- The values of Python's `datetime` that the services compute with. A naive datetime is its number
-- of microseconds since 0001-01-01T00:00:00, and a date its number of days since then.
use library_api.Prelude.{ℕ, ◌*◌, ◌/◌}

abbrev pub Datetime : Type 0
Datetime = ℕ

abbrev pub Date : Type 0
Date = ℕ

abbrev pub microseconds_per_day : ℕ
microseconds_per_day = 86_400_000_000

-- `d.date()`
abbrev pub date_of : Datetime → Date
date_of d = d / microseconds_per_day

-- `timedelta(days=n)`
abbrev pub days : ℕ → ℕ
days n = n * microseconds_per_day

-- A datetime that a client sends: the parser keeps the offset, if the text has one. Comparing such
-- an aware value with a naive one raises `TypeError`.
pub data GivenDatetime : Type 0 where
  naive : Datetime → GivenDatetime
  aware : Datetime → GivenDatetime
