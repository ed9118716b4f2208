-- ===== src/Loans/Overdue.antt =====
-- The days late, the fine and the flag of `_serialize_loan`, beside the condition by which the
-- repository lists overdue loans.
use library_api.Prelude.{◌≡◌, ◌↔◌, ◌⊎◌, inl, inr, Bool-cases, ◌<◌, ◌-◌, ◌*◌, true, false, arith}
use library_api.Datetime.{date_of}
use library_api.Models.Loan.{Loan}
use library_api.External.{External}
use library_api.World.{State}
use library_api.Loans.Fine.{days_late_at, amount_at, daily_fine_amount}
use library_api.Loans.Repository.{is_active, is_overdue_at}
use library_api.Loans.Queries.{serialize_loan}

module _ ⦃ext : External⦄ where
  -- For an active loan, `is_overdue` says that the day of the due date is before today, and the
  -- current fine is two reais for each of the days late; of a loan that is not active it is false,
  -- and the fine is the one stored.
  pub serialize_loan-fine :
      (loan : Loan) (w : State)
      → let r = (serialize_loan loan w).0 in
        (((is_active loan ≡ true)
            × ((r.is_overdue ≡ true) ↔ (date_of loan.due_date < date_of (ext.clock w.readings)))
            × (r.current_fine_amount ≡ r.days_late * daily_fine_amount)
            × (r.days_late ≡ date_of (ext.clock w.readings) - date_of loan.due_date))
          ⊎ ((is_active loan ≡ false)
              × (r.is_overdue ≡ false)
              × (r.current_fine_amount ≡ loan.fine_amount)))
  unfolding serialize_loan days_late_at amount_at
  serialize_loan-fine loan w = elim (Bool-cases (is_active loan)) [
    | inl active ↦
        inl (active, ground (arith, active), ground (arith, active), ground (arith, active))
    | inr closed ↦ inr (closed, ground (arith, closed), ground (arith, closed))
  ]

  -- On the day on which an active loan is due, once the hour of the due date is past, the condition
  -- of `list_overdue` holds of the loan, and yet the loan is serialized as not overdue, no day late
  -- and with no fine.
  pub serialize_loan-is_overdue_at :
      (loan : Loan) (w : State)
      → is_overdue_at (ext.clock w.readings) loan ≡ true
      → date_of loan.due_date ≡ date_of (ext.clock w.readings)
      → let r = (serialize_loan loan w).0 in
        (r.is_overdue ≡ false) × (r.days_late ≡ 0) × (r.current_fine_amount ≡ 0)
  unfolding serialize_loan days_late_at amount_at
  serialize_loan-is_overdue_at loan w listed same_day = ground (arith, listed)
