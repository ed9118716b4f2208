-- ===== src/Loans/Effects/Renew.antt =====
-- What `renew_loan` does.
use library_api.Prelude.{
  ◌+◌, ◌≤◌, ◌<◌, String, ◌≡◌, some, arith, Bool-cases, Option-cases, inl, inr, leb, ltb, select,
  List-cases, [],
}
use library_api.Datetime.{days}
use library_api.Models.Book.{book_row}
use library_api.Models.Loan.{Loan, loan_row}
use library_api.Responses.{RenewLoanResponse}
use library_api.Table.{save}
use library_api.External.{External}
use library_api.World.{State}
use library_api.Loans.Fine.{days_late_at}
use library_api.Loans.Repository
use library_api.Reservations.Repository as Reservations
use library_api.Loans.Service.{renew_loan, max_renewals, renewal_days}
use library_api.Effects.{Ends, Unchanged}

module _ ⦃ext : External⦄ where
  -- The loan that `renew_loan` writes.
  abbrev pub renewed_loan : Loan → Loan
  renewed_loan loan = record loan {
    due_date = loan.due_date + days renewal_days;
    renewal_count = loan.renewal_count + 1;
  }

  pub record Renewed (loan_id : String) (w : State) (r : RenewLoanResponse) (w' : State)
      : Type 0 where
    pub loan : Loan
    pub active : Repository.find_active_by_id_for_update loan_id w ≡ some loan
    pub in_time : days_late_at loan.due_date (ext.clock w.readings) ≡ 0
    pub below_limit : loan.renewal_count < max_renewals
    pub unreserved : select (Reservations.is_active_for_book loan.book_id) w.reservations ≡ []
    pub loans : w'.loans ≡ save (renewed_loan loan) w.loans
    pub books : w'.books ≡ w.books
    pub reservations : w'.reservations ≡ w.reservations
    pub users : w'.users ≡ w.users
    pub authors : w'.authors ≡ w.authors
    pub later : w.identifiers ≤ w'.identifiers
    pub cache : w'.cache ≡ w.cache
    pub due_date : r.due_date ≡ loan.due_date + days renewal_days

  -- When `renew_loan` returns, the loan was active, no day late and renewed less than twice, its
  -- book had no active reservation, and the loan is due seven days later with one renewal more;
  -- the other tables and the cache are as they were. When it raises, so are the loans and the
  -- counters.
  pub renew_loan-Ends :
      (loan_id : String) (w : State) → Ends (Renewed loan_id w) (Unchanged w) (renew_loan loan_id w)
  unfolding renew_loan
  renew_loan-Ends loan_id w =
      elim (Option-cases (Repository.find_active_by_id_for_update loan_id w)) [
        | inl no_loan ↦ ground arith
        | inr (loan, active) ↦
            elim (Bool-cases (ltb 0 (days_late_at loan.due_date (ext.clock w.readings)))) [
              | inl late ↦ ground arith
              | inr in_time ↦ elim (Bool-cases (leb max_renewals loan.renewal_count)) [
                | inl used_up ↦ ground arith
                | inr left ↦
                    elim (List-cases
                      (select (Reservations.is_active_for_book loan.book_id) w.reservations)) [
                        | inr (first, rest, reserved) ↦ ground arith
                        | inl unreserved ↦
                            rw (active, in_time, left, unreserved)
                              (record {
                                loan = loan;
                                active = active;
                                in_time = ground arith;
                                below_limit = ground arith;
                                unreserved = unreserved;
                                loans = ground arith;
                                books = ground arith;
                                reservations = ground arith;
                                users = ground arith;
                                authors = ground arith;
                                later = ground arith;
                                cache = ground arith;
                                due_date = ground arith;
                              })
                      ]
              ]
            ]
      ]
