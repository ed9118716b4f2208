-- ===== src/Loans/FineLaws.antt =====
-- The fine calculator of app/domain/loans/services/fine_calculator.py over time.
use library_api.Prelude.{ℕ, ◌+◌, ◌*◌, ◌≤◌, ◌<◌, ◌≡◌, ◌↔◌, arith}
use library_api.Datetime.{Datetime, date_of, days}
use library_api.Loans.Fine.{days_late_at, amount_at}

-- A loan is late by no day exactly while the calendar day of the reference date is not after that
-- of the due date.
pub days_late_at-eq-zero :
    (due_date reference_date : Datetime)
    → (days_late_at due_date reference_date ≡ 0) ↔ (date_of reference_date ≤ date_of due_date)
unfolding days_late_at
days_late_at-eq-zero due_date reference_date = ground arith

-- The fine never shrinks as time passes.
pub amount_at_mono :
    (due_date now later : Datetime)
    → now ≤ later
    → amount_at due_date now ≤ amount_at due_date later
unfolding amount_at
amount_at_mono due_date now later h = ground arith

-- Past the due date, every further day adds two reais.
pub amount_at-add_days :
    (due_date now : Datetime) (n : ℕ)
    → due_date ≤ now
    → amount_at due_date (now + days n) ≡ amount_at due_date now + n * 200
unfolding amount_at
amount_at-add_days due_date now n h = ground arith

-- On one calendar day the fine is the same at every hour past the due date.
pub amount_at_day :
    (due_date now later : Datetime)
    → date_of later ≤ date_of now
    → due_date < now
    → amount_at due_date later ≤ amount_at due_date now
unfolding amount_at
amount_at_day due_date now later h late = ground arith

-- Only past the due date is there a fine.
pub late_of_fine : (due_date now n : ℕ) → n < amount_at due_date now → due_date < now
unfolding amount_at
late_of_fine due_date now n h = ground arith

-- On one calendar day the fine is the same at every hour.
amount_at_hour :
    (due_date now later : Datetime)
    → date_of later ≡ date_of now
    → amount_at due_date later ≡ amount_at due_date now
unfolding amount_at
amount_at_hour due_date now later h = ground arith

amount_at-eq-zero :
    (due_date now : Datetime) → (amount_at due_date now ≡ 0) ↔ (date_of now ≤ date_of due_date)
unfolding amount_at
amount_at-eq-zero due_date now = ground arith

-- The fine is nothing exactly until the end of the calendar day of the due date; it is the same at
-- all hours of a day; and from the due date on it grows by two reais with every day.
pub amount_at_lem :
    (due_date now later : Datetime) (n : ℕ)
    → ((amount_at due_date now ≡ 0) ↔ (date_of now ≤ date_of due_date))
      × (date_of later ≡ date_of now → amount_at due_date later ≡ amount_at due_date now)
      × (due_date ≤ now → amount_at due_date (now + days n) ≡ amount_at due_date now + n * 200)
amount_at_lem due_date now later n = (
  amount_at-eq-zero due_date now,
  amount_at_hour due_date now later,
  amount_at-add_days due_date now n,
)
