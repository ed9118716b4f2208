-- ===== src/Loans/Fine.antt =====
-- app/domain/loans/services/fine_calculator.py. The daily fine is a constant 2.0, so every amount
-- is a whole number of cents.
use library_api.Prelude.{ℕ, ◌-◌, ◌*◌, Option, none, some, leb, if◌then◌else◌}
use library_api.Datetime.{Datetime, date_of}
use library_api.Models.Loan.{Cents}
use library_api.External.{External}
use library_api.World.{State, utcnow}

abbrev pub daily_fine_amount : Cents
daily_fine_amount = 200

-- `calculate_days_late` with a reference date. Past the test the reference date is not before the
-- due date, so neither is its day, and the difference of the days is a natural number.
unfoldable pub days_late_at : Datetime → Datetime → ℕ
days_late_at due_date reference_date =
    if leb reference_date due_date then 0 else date_of reference_date - date_of due_date

-- `calculate_amount` with a reference date.
unfoldable pub amount_at : Datetime → Datetime → Cents
unfolding days_late_at
amount_at due_date reference_date = days_late_at due_date reference_date * daily_fine_amount

module _ ⦃ext : External⦄ where
  -- `reference_date or datetime.utcnow()`
  abbrev pub reference_or_now : Option Datetime → State → Datetime × State
  reference_or_now none w = utcnow w
  reference_or_now (some d) w = (d, w)

  unfoldable pub calculate_days_late : Datetime → Option Datetime → State → ℕ × State
  calculate_days_late due_date reference_date w =
      let (reference, w') = reference_or_now reference_date w in
      (days_late_at due_date reference, w')

  unfoldable pub calculate_amount : Datetime → Option Datetime → State → Cents × State
  unfolding calculate_days_late
  calculate_amount due_date reference_date w =
      let (days_late, w') = calculate_days_late due_date reference_date w in
      (days_late * daily_fine_amount, w')
