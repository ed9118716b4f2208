-- ===== src/Loans/Effects/Pay.antt =====
-- What `pay_fine` does.
use library_api.Prelude.{
  ◌+◌, ◌≤◌, ◌<◌, String, ◌≡◌, refl, some, arith, Bool-cases, Option-cases, inl, inr, leb,
}
use library_api.Datetime.{Datetime}
use library_api.Models.Book.{book_row}
use library_api.Models.Loan.{Loan, loan_row}
use library_api.Responses.{PayLoanFineResponse}
use library_api.Table.{save}
use library_api.External.{External}
use library_api.World.{State}
use library_api.Loans.Fine.{amount_at}
use library_api.Loans.Repository
use library_api.Loans.Service.{pay_fine, invalidate_loan_cache}
use library_api.Effects.{Ends, Unchanged}

module _ ⦃ext : External⦄ where
  -- The loan that `pay_fine` writes.
  abbrev pub paid_loan : Loan → Datetime → Loan
  paid_loan loan now = record loan {
    fine_amount = amount_at loan.due_date now;
    fine_paid_amount = amount_at loan.due_date now;
    fine_paid_at = some now;
  }

  pub record Paid (loan_id : String) (w : State) (r : PayLoanFineResponse) (w' : State)
      : Type 0 where
    pub loan : Loan
    pub active : Repository.find_active_by_id_for_update loan_id w ≡ some loan
    pub owing : loan.fine_paid_amount < amount_at loan.due_date (ext.clock w.readings)
    pub payment :
        loan.fine_paid_amount + r.payment_amount ≡ amount_at loan.due_date (ext.clock w.readings)
    pub loans : w'.loans ≡ save (paid_loan loan (ext.clock w.readings)) w.loans
    pub books : w'.books ≡ w.books
    pub reservations : w'.reservations ≡ w.reservations
    pub users : w'.users ≡ w.users
    pub authors : w'.authors ≡ w.authors
    pub later : w.identifiers ≤ w'.identifiers
    pub cache : w'.cache ≡ (invalidate_loan_cache loan.user_id loan.id w).cache

  -- When `pay_fine` returns, the loan was active and owed more than was paid, the payment makes
  -- up the difference to the fine of now, which is stored as paid, and the cached loans were
  -- dropped. When it raises, the tables, the cache and the counters are as they were.
  pub pay_fine-Ends :
      (loan_id : String) (w : State) → Ends (Paid loan_id w) (Unchanged w) (pay_fine loan_id w)
  unfolding pay_fine
  pay_fine-Ends loan_id w =
      elim (Option-cases (Repository.find_active_by_id_for_update loan_id w)) [
        | inl no_loan ↦ ground arith
        | inr (loan, active) ↦
            elim (Bool-cases (leb (amount_at loan.due_date (ext.clock w.readings)) 0)) [
              | inl no_fine ↦ ground arith
              | inr fine ↦
                  elim (Bool-cases
                    (leb (amount_at loan.due_date (ext.clock w.readings)) loan.fine_paid_amount)) [
                      | inl settled ↦ ground arith
                      | inr owing ↦
                          rw (active, fine, owing)
                            (record {
                              loan = loan;
                              active = active;
                              owing = ground arith;
                              payment = ground arith;
                              loans = refl;
                              books = refl;
                              reservations = refl;
                              users = refl;
                              authors = refl;
                              later = omega arith;
                              cache = refl;
                            })
                    ]
            ]
      ]
