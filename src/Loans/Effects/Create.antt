-- ===== src/Loans/Effects/Create.antt =====
-- What `create_loan` does.
use library_api.Prelude.{
  ◌+◌, ◌≤◌, ◌<◌, ◌≡◌, refl, none, some, arith, Bool-cases, Option-cases, inl, inr, leb,
}
use library_api.Prelude.Int.{pos, ◌-ℤ◌, ◌≤ℤ◌, leb_ℤ}
use library_api.Datetime.{days}
use library_api.Models.Book.{Book, book_row}
use library_api.Models.User.{User}
use library_api.Models.Loan.{Loan, LoanStatus, loan_row}
use library_api.Table.{insert, save}
use library_api.EventBus.{service_bus}
use library_api.External.{External}
use library_api.World.{State}
use library_api.Loans.Repository
use library_api.Loans.Queries.{find_user}
use library_api.Loans.Service.{
  CreateLoan, create_loan, loan_days, max_active_loans, invalidate_book_cache,
  invalidate_loan_cache,
}
use library_api.Effects.{Ends, Unchanged}

module _ ⦃ext : External⦄ where
  -- The loan that `create_loan` writes.
  abbrev pub new_loan : CreateLoan → State → Loan
  new_loan input w = record {
    id = ext.uuid w.identifiers;
    user_id = input.user_id;
    book_id = input.book_id;
    loan_date = ext.clock w.readings;
    due_date = ext.clock w.readings + days loan_days;
    returned_at = none;
    cancelled_at = none;
    status = LoanStatus.active;
    fine_amount = 0;
    fine_paid_at = none;
    fine_paid_amount = 0;
    renewal_count = 0;
    created_at = ext.clock (w.readings + 1);
  }

  pub record Lent (input : CreateLoan) (w w' : State) : Type 0 where
    pub user : User
    pub known : find_user input.user_id w ≡ some user
    pub below_limit : Repository.count_active_by_user input.user_id w < max_active_loans
    pub book : Book
    pub found : Repository.get_book_for_update input.book_id w ≡ some book
    pub available : pos 1 ≤ℤ book.available_copies
    pub loans : w'.loans ≡ insert (new_loan input w) w.loans
    pub books :
        w'.books ≡ save (record book { available_copies = book.available_copies -ℤ pos 1 }) w.books
    pub reservations : w'.reservations ≡ w.reservations
    pub users : w'.users ≡ w.users
    pub authors : w'.authors ≡ w.authors
    pub later : w.identifiers ≤ w'.identifiers
    pub cache :
        w'.cache
        ≡ (invalidate_loan_cache input.user_id
            (ext.uuid w.identifiers)
            (invalidate_book_cache input.book_id w)).cache

  -- When `create_loan` returns, the user was known and had fewer than three active loans, the
  -- book was active and had a copy, the tables changed by the new loan, due 14 days after it is
  -- made, and by one copy less, and the cached books and loans were dropped. When it raises, the
  -- tables, the cache and the counters are as they were.
  pub create_loan-Ends :
      (input : CreateLoan) (w : State)
      → Ends (λ r w'. Lent input w w') (Unchanged w) (create_loan service_bus input w)
  unfolding create_loan service_bus
  create_loan-Ends input w = elim (Option-cases (find_user input.user_id w)) [
    | inl no_user ↦ ground arith
    | inr (user, known) ↦ elim (Option-cases (Repository.get_book_for_update input.book_id w)) [
      | inl no_book ↦ ground arith
      | inr (book, found) ↦
          elim (Bool-cases
            (leb max_active_loans (Repository.count_active_by_user input.user_id w))) [
              | inl full ↦ ground arith
              | inr room ↦ elim (Bool-cases (leb_ℤ book.available_copies (pos 0))) [
                | inl gone ↦ ground arith
                | inr there ↦
                    rw (known, room, found, there)
                      (record {
                        user = user;
                        known = known;
                        below_limit = ground arith;
                        book = book;
                        found = found;
                        available = ground arith;
                        loans = refl;
                        books = refl;
                        reservations = refl;
                        users = refl;
                        authors = refl;
                        later = omega arith;
                        cache = refl;
                      })
              ]
            ]
    ]
  ]
