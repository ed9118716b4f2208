-- ===== src/Loans/Effects/Return.antt =====
-- What `return_loan` does.
use library_api.Prelude.{
  ◌≤◌, String, ◌≡◌, refl, ◌&&◌, some, arith, Bool-cases, Option-cases, inl, inr, ltb,
}
use library_api.Prelude.Int.{pos, ◌+ℤ◌}
use library_api.Datetime.{Datetime}
use library_api.Models.Book.{Book, book_row}
use library_api.Models.Loan.{Loan, LoanStatus, loan_row}
use library_api.Responses.{ReturnLoanResponse}
use library_api.Table.{save}
use library_api.EventBus.{service_bus}
use library_api.External.{External}
use library_api.World.{State}
use library_api.Loans.Fine.{amount_at}
use library_api.Loans.Repository
use library_api.Loans.Service.{return_loan, invalidate_book_cache, invalidate_loan_cache}
use library_api.Effects.{Ends, Unchanged}

module _ ⦃ext : External⦄ where
  -- The loan that `return_loan` writes.
  abbrev pub returned_loan : Loan → Datetime → Loan
  returned_loan loan now = record loan {
    status = LoanStatus.returned;
    returned_at = some now;
    fine_amount = amount_at loan.due_date now;
  }

  -- One more copy on the shelf.
  abbrev pub shelved : Book → Book
  shelved book = record book { available_copies = book.available_copies +ℤ pos 1 }

  pub record Returned (loan_id : String) (w : State) (r : ReturnLoanResponse) (w' : State)
      : Type 0 where
    pub loan : Loan
    pub active : Repository.find_active_by_id_for_update loan_id w ≡ some loan
    pub covered : amount_at loan.due_date (ext.clock w.readings) ≤ loan.fine_paid_amount
    pub book : Book
    pub found : Repository.get_book_for_update loan.book_id w ≡ some book
    pub loans : w'.loans ≡ save (returned_loan loan (ext.clock w.readings)) w.loans
    pub books : w'.books ≡ save (shelved book) w.books
    pub reservations : w'.reservations ≡ w.reservations
    pub users : w'.users ≡ w.users
    pub authors : w'.authors ≡ w.authors
    pub later : w.identifiers ≤ w'.identifiers
    pub cache :
        w'.cache
        ≡ (invalidate_loan_cache loan.user_id loan.id (invalidate_book_cache loan.book_id w)).cache
    pub fine : r.fine_amount ≡ amount_at loan.due_date (ext.clock w.readings)

  -- When `return_loan` returns, the loan was active and what was paid covered the fine of now,
  -- the loan is stored as returned now with that fine, its book has one copy more, the cached
  -- books and loans were dropped, and the answer has that fine. When it raises, the tables, the
  -- cache and the counters are as they were.
  pub return_loan-Ends :
      (loan_id : String) (w : State)
      → Ends (Returned loan_id w) (Unchanged w) (return_loan service_bus loan_id w)
  unfolding return_loan service_bus
  return_loan-Ends loan_id w =
      elim (Option-cases (Repository.find_active_by_id_for_update loan_id w)) [
        | inl no_loan ↦ ground arith
        | inr (loan, active) ↦ elim (Option-cases (Repository.get_book_for_update loan.book_id w)) [
          | inl no_book ↦ ground arith
          | inr (book, found) ↦
              elim (Bool-cases (
                ltb 0 (amount_at loan.due_date (ext.clock w.readings))
                && ltb loan.fine_paid_amount (amount_at loan.due_date (ext.clock w.readings)))) [
                  | inl unpaid ↦ ground arith
                  | inr paid ↦
                      rw (active, paid, found)
                        (record {
                          loan = loan;
                          active = active;
                          covered = ground arith;
                          book = book;
                          found = found;
                          loans = refl;
                          books = refl;
                          reservations = refl;
                          users = refl;
                          authors = refl;
                          later = omega arith;
                          cache = refl;
                          fine = refl;
                        })
                ]
        ]
      ]
