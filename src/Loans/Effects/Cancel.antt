-- ===== src/Loans/Effects/Cancel.antt =====
-- What `cancel_loan` does.
use library_api.Prelude.{◌≤◌, String, ◌≡◌, refl, some, arith, Option-cases, inl, inr}
use library_api.Datetime.{Datetime}
use library_api.Models.Book.{Book, book_row}
use library_api.Models.Loan.{Loan, LoanStatus, loan_row}
use library_api.Table.{save}
use library_api.EventBus.{service_bus}
use library_api.External.{External}
use library_api.World.{State}
use library_api.Loans.Repository
use library_api.Loans.Service.{cancel_loan, invalidate_book_cache, invalidate_loan_cache}
use library_api.Effects.{Ends, Unchanged}
use library_api.Loans.Effects.Return.{shelved}

module _ ⦃ext : External⦄ where
  -- The loan that `cancel_loan` writes.
  abbrev pub cancelled_loan : Loan → Datetime → Loan
  cancelled_loan loan now = record loan {
    status = LoanStatus.cancelled;
    cancelled_at = some now;
    fine_amount = 0;
  }

  pub record Cancelled (loan_id : String) (w w' : State) : Type 0 where
    pub loan : Loan
    pub active : Repository.find_active_by_id_for_update loan_id w ≡ some loan
    pub book : Book
    pub found : Repository.get_book_for_update loan.book_id w ≡ some book
    pub loans : w'.loans ≡ save (cancelled_loan loan (ext.clock w.readings)) w.loans
    pub books : w'.books ≡ save (shelved book) w.books
    pub reservations : w'.reservations ≡ w.reservations
    pub users : w'.users ≡ w.users
    pub authors : w'.authors ≡ w.authors
    pub later : w.identifiers ≤ w'.identifiers
    pub cache :
        w'.cache
        ≡ (invalidate_loan_cache loan.user_id loan.id (invalidate_book_cache loan.book_id w)).cache

  -- When `cancel_loan` returns, the loan was active, it is stored as cancelled now with no fine,
  -- its book has one copy more, and the cached books and loans were dropped. When it raises, the
  -- tables, the cache and the counters are as they were.
  pub cancel_loan-Ends :
      (loan_id : String) (w : State)
      → Ends (λ r w'. Cancelled loan_id w w') (Unchanged w) (cancel_loan service_bus loan_id w)
  unfolding cancel_loan service_bus
  cancel_loan-Ends loan_id w =
      elim (Option-cases (Repository.find_active_by_id_for_update loan_id w)) [
        | inl no_loan ↦ ground arith
        | inr (loan, active) ↦ elim (Option-cases (Repository.get_book_for_update loan.book_id w)) [
          | inl no_book ↦ ground arith
          | inr (book, found) ↦
              rw (active, found)
                (record {
                  loan = loan;
                  active = active;
                  book = book;
                  found = found;
                  loans = refl;
                  books = refl;
                  reservations = refl;
                  users = refl;
                  authors = refl;
                  later = omega arith;
                  cache = refl;
                })
        ]
      ]
