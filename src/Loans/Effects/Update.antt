-- ===== src/Loans/Effects/Update.antt =====
-- What `update_loan` does.
use library_api.Prelude.{
  ◌≤◌, ◌<◌, String, ◌≡◌, refl, Option, none, some, arith, Bool-cases, Option-cases, inl, inr, leb,
}
use library_api.Datetime.{Datetime, GivenDatetime, naive, aware}
use library_api.Models.Book.{book_row}
use library_api.Models.Loan.{Loan, LoanStatus, loan_row}
use library_api.Table.{save}
use library_api.External.{External}
use library_api.World.{State}
use library_api.Loans.Repository
use library_api.Loans.Service.{UpdateLoan, update_loan, invalidate_loan_cache}
use library_api.Effects.{Ends, Unchanged}

module _ ⦃ext : External⦄ where
  -- A new due date after the day of the loan, or none.
  abbrev pub MayBeDue : Loan → Option GivenDatetime → Datetime → Type 0
  MayBeDue loan none due_date = due_date ≡ loan.due_date
  MayBeDue loan (some (naive d)) due_date = (due_date ≡ d) × (loan.loan_date < d)
  MayBeDue loan (some (aware d)) due_date = ⊥

  pub record Updated (loan_id : String) (input : UpdateLoan) (w w' : State) : Type 0 where
    pub loan : Loan
    pub found : Repository.find_by_id loan_id w ≡ some loan
    pub active : loan.status ≡ LoanStatus.active
    pub due_date : Datetime
    pub accepted : MayBeDue loan input.due_date due_date
    pub loans : w'.loans ≡ save (record loan { due_date = due_date }) w.loans
    pub books : w'.books ≡ w.books
    pub reservations : w'.reservations ≡ w.reservations
    pub users : w'.users ≡ w.users
    pub authors : w'.authors ≡ w.authors
    pub later : w.identifiers ≤ w'.identifiers
    pub cache : w'.cache ≡ (invalidate_loan_cache loan.user_id loan.id w).cache

  -- When `update_loan` returns, the loan was active, and its due date is the given naive one,
  -- which is after the loan date, or the old one when none was given; nothing else of the tables
  -- changed, and the cached loans were dropped. When it raises, the tables, the cache and the
  -- counters are as they were.
  pub update_loan-Ends :
      (loan_id : String) (input : UpdateLoan) (w : State)
      → Ends (λ r w'. Updated loan_id input w w') (Unchanged w) (update_loan loan_id input w)
  unfolding update_loan
  update_loan-Ends loan_id input w = elim (Option-cases (Repository.find_by_id loan_id w)) [
    | inl no_loan ↦ ground arith
    | inr (loan, found) ↦ go loan found loan.status refl input.due_date refl
  ]
    where
      go :
          (loan : Loan)
          → Repository.find_by_id loan_id w ≡ some loan
          → (status : LoanStatus) → loan.status ≡ status
          → (due_date : Option GivenDatetime) → input.due_date ≡ due_date
          → Ends (λ r w'. Updated loan_id input w w') (Unchanged w) (update_loan loan_id input w)
      go loan found LoanStatus.returned is _ given = ground arith
      go loan found LoanStatus.cancelled is _ given = ground arith
      go loan found LoanStatus.active is none given =
          rw (found, is, given)
            (record {
              loan = loan;
              found = found;
              active = is;
              due_date = loan.due_date;
              accepted = ground arith;
              loans = ground arith;
              books = refl;
              reservations = refl;
              users = refl;
              authors = refl;
              later = omega arith;
              cache = ground arith;
            })
      go loan found LoanStatus.active is (some (aware d)) given = ground arith
      go loan found LoanStatus.active is (some (naive d)) given =
          elim (Bool-cases (leb d loan.loan_date)) [
            | inl early ↦ ground arith
            | inr later ↦
                rw (found, is, given, later)
                  (record {
                    loan = loan;
                    found = found;
                    active = is;
                    due_date = d;
                    accepted = ground arith;
                    loans = ground arith;
                    books = refl;
                    reservations = refl;
                    users = refl;
                    authors = refl;
                    later = omega arith;
                    cache = ground arith;
                  })
          ]
