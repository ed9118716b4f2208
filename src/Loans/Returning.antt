-- ===== src/Loans/Returning.antt =====
-- The conditions under which the methods of the loan service return.
use library_api.Prelude.{◌≡◌, ◌<◌, String, some, [], false, leb, arith, select}
use library_api.Prelude.Int.{pos, ◌≤ℤ◌, leb_ℤ}
use library_api.Models.User.{User}
use library_api.Models.Book.{Book}
use library_api.Models.Loan.{Loan}
use library_api.EventBus.{service_bus}
use library_api.External.{External}
use library_api.World.{State}
use library_api.Effects.{Returns}
use library_api.Loans.Fine.{amount_at, days_late_at}
use library_api.Loans.Repository
use library_api.Reservations.Repository as Reservations
use library_api.Loans.Queries.{find_user}
use library_api.Loans.Service.{
  CreateLoan, create_loan, pay_fine, cancel_loan, renew_loan, max_active_loans, max_renewals,
}

module _ ⦃ext : External⦄ where
  -- `create_loan` returns for an active user with fewer than three active loans and an active book
  -- with a copy on the shelf.
  pub create_loan-Returns :
      (input : CreateLoan) (w : State) (user : User) (book : Book)
      → find_user input.user_id w ≡ some user
      → Repository.count_active_by_user input.user_id w < max_active_loans
      → Repository.get_book_for_update input.book_id w ≡ some book
      → pos 1 ≤ℤ book.available_copies
      → Returns (create_loan service_bus input w)
  unfolding create_loan service_bus
  create_loan-Returns input w user book known room found there =
      let below : leb max_active_loans (Repository.count_active_by_user input.user_id w) ≡ false =
        ground arith in
      let some_left : leb_ℤ book.available_copies (pos 0) ≡ false = ground arith in
      rw (known, below, found, some_left) tt

  -- `pay_fine` returns for an active loan whose fine today is more than what has been paid of it.
  pub pay_fine-Returns :
      (loan_id : String) (w : State) (loan : Loan)
      → Repository.find_active_by_id_for_update loan_id w ≡ some loan
      → loan.fine_paid_amount < amount_at loan.due_date (ext.clock w.readings)
      → Returns (pay_fine loan_id w)
  unfolding pay_fine
  pay_fine-Returns loan_id w loan active owing =
      let fine : leb (amount_at loan.due_date (ext.clock w.readings)) 0 ≡ false = ground arith in
      let unpaid : leb (amount_at loan.due_date (ext.clock w.readings)) loan.fine_paid_amount
          ≡ false =
        ground arith in
      rw (active, fine, unpaid) tt

  -- `cancel_loan` returns for an active loan whose book is active.
  pub cancel_loan-Returns :
      (loan_id : String) (w : State) (loan : Loan) (book : Book)
      → Repository.find_active_by_id_for_update loan_id w ≡ some loan
      → Repository.get_book_for_update loan.book_id w ≡ some book
      → Returns (cancel_loan service_bus loan_id w)
  unfolding cancel_loan service_bus
  cancel_loan-Returns loan_id w loan book active found = rw (active, found) tt

  -- `renew_loan` returns for an active loan that is no day late and has been renewed less than twice,
  -- if its book has no active reservation.
  pub renew_loan-Returns :
      (loan_id : String) (w : State) (loan : Loan)
      → Repository.find_active_by_id_for_update loan_id w ≡ some loan
      → days_late_at loan.due_date (ext.clock w.readings) ≡ 0
      → loan.renewal_count < max_renewals
      → select (Reservations.is_active_for_book loan.book_id) w.reservations ≡ []
      → Returns (renew_loan loan_id w)
  unfolding renew_loan
  renew_loan-Returns loan_id w loan active in_time left unreserved =
      let more : leb max_renewals loan.renewal_count ≡ false = ground arith in
      rw (active, in_time, more, unreserved) tt
