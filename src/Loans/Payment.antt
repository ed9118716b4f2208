-- ===== src/Loans/Payment.antt =====
-- `pay_fine` of app/domain/loans/services/loan_service.py followed by `return_loan`.
use library_api.Prelude.{◌≤◌, String, ◌≡◌, refl, false, ◌&&◌, ltb, some, arith, eq_iff}
use library_api.Datetime.{date_of}
use library_api.Models.Book.{Book}
use library_api.Models.Loan.{Loan, loan_row}
use library_api.Responses.{PayLoanFineResponse, ReturnLoanResponse}
use library_api.Table.{find_by_key-save, find_where_self}
use library_api.Exec.{ok}
use library_api.EventBus.{service_bus}
use library_api.External.{External}
use library_api.World.{State}
use library_api.Effects.{Ends-ok, Unchanged}
use library_api.Loans.Fine.{amount_at}
use library_api.Loans.FineLaws.{amount_at_day, late_of_fine}
use library_api.Loans.Repository
use library_api.Loans.Service.{pay_fine, return_loan}
use library_api.Loans.Effects.Pay.{Paid, paid_loan, pay_fine-Ends}

module _ ⦃ext : External⦄ where
  -- The loan that a payment leaves is found again.
  pub Paid-again :
      {loan_id : String} {w w' : State} {r : PayLoanFineResponse} (p : Paid loan_id w r w')
      → Repository.find_active_by_id_for_update loan_id w'
        ≡ some (paid_loan p.loan (ext.clock w.readings))
  Paid-again {loan_id} {w} {w'} p =
      let (found, active, key) = find_where_self loan_id Repository.is_active w.loans p.active in
      rw
        (
          p.loans,
          find_by_key-save loan_id (paid_loan p.loan (ext.clock w.readings)) p.loan w.loans found,
        )
        (ground (arith, eq_iff p.loan.id loan_id))

  -- `return_loan` returns for an active loan whose payments cover the fine of now and whose book
  -- is active.
  pub return_covered :
      (loan_id : String) (w : State) (loan : Loan) (book : Book)
      → Repository.find_active_by_id_for_update loan_id w ≡ some loan
      → amount_at loan.due_date (ext.clock w.readings) ≤ loan.fine_paid_amount
      → Repository.get_book_for_update loan.book_id w ≡ some book
      → (r : ReturnLoanResponse) × ((return_loan service_bus loan_id w).0 ≡ ok r)
  unfolding return_loan service_bus
  return_covered loan_id w loan book active covered found =
      let fine = amount_at loan.due_date (ext.clock w.readings) in
      let paid : (ltb 0 fine && ltb loan.fine_paid_amount fine) ≡ false = ground arith in
      rw (active, paid, found) (_, refl)

  -- Once `pay_fine` has returned for an active loan whose book is active, `return_loan` returns
  -- for it, if the clock still shows the day of the payment.
  pub return_loan-pay_fine :
      (loan_id : String) (w : State) (loan : Loan) (book : Book) (r : PayLoanFineResponse)
      → Repository.find_active_by_id_for_update loan_id w ≡ some loan
      → Repository.get_book_for_update loan.book_id w ≡ some book
      → (pay_fine loan_id w).0 ≡ ok r
      → date_of (ext.clock (pay_fine loan_id w).1.readings) ≤ date_of (ext.clock w.readings)
      → (s : ReturnLoanResponse) × ((return_loan service_bus loan_id (pay_fine loan_id w).1).0
          ≡ ok s)
  return_loan-pay_fine loan_id w loan book r active found paid same_day =
      let w' = (pay_fine loan_id w).1 in
      let now = ext.clock w.readings in
      let (_, p) =
        Ends-ok (Paid loan_id w) (Unchanged w) (pay_fine loan_id w) (pay_fine-Ends loan_id w)
          paid in
      let same : p.loan ≡ loan = ground (arith, p.active) in
      return_covered loan_id w' (paid_loan p.loan now) book (Paid-again p)
        (amount_at_day p.loan.due_date now (ext.clock w'.readings) same_day
          (late_of_fine p.loan.due_date now p.loan.fine_paid_amount p.owing))
        (rw (same, p.books) found)
