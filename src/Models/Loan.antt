-- ===== src/Models/Loan.antt =====
-- app/domain/loans: `LoanModel` and `LoanStatus`. An amount of money is a number of cents, as the
-- columns of type `Numeric(10, 2)` hold it.
use library_api.Prelude.{ℕ, String, Bool, true, false, Option}
use library_api.Datetime.{Datetime}
use library_api.Table.{Row}

pub data LoanStatus : Type 0 where
  active returned cancelled : LoanStatus

abbrev pub status_eq : LoanStatus → LoanStatus → Bool
status_eq LoanStatus.active LoanStatus.active = true
status_eq LoanStatus.returned LoanStatus.returned = true
status_eq LoanStatus.cancelled LoanStatus.cancelled = true
status_eq _ _ = false

abbrev pub Cents : Type 0
Cents = ℕ

pub record Loan : Type 0 where
  pub id : String
  pub user_id : String
  pub book_id : String
  pub loan_date : Datetime
  pub due_date : Datetime
  pub returned_at : Option Datetime
  pub cancelled_at : Option Datetime
  pub status : LoanStatus
  pub fine_amount : Cents
  pub fine_paid_at : Option Datetime
  pub fine_paid_amount : Cents
  pub renewal_count : ℕ
  pub created_at : Datetime

instance abbrev pub loan_row : Row Loan
loan_row = record { id_of = λ l. l.id }
