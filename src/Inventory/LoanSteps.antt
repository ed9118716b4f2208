-- ===== src/Inventory/LoanSteps.antt =====
-- The loan service's changes of the two tables as steps of the abstract machine.
use library_api.Prelude.{String, ◌≡◌, refl, sym, true, arith, inl, inr, ap}
use library_api.Models.Book.{book_row}
use library_api.Models.Loan.{loan_row}
use library_api.Responses.{ReturnLoanResponse, PayLoanFineResponse, RenewLoanResponse}
use library_api.Table.{find_where_self, find_by_key_self}
use library_api.External.{External}
use library_api.World.{State}
use library_api.Effects.{Unchanged}
use library_api.Loans.Repository.{is_active}
use library_api.Loans.Service.{CreateLoan, UpdateLoan}
use library_api.Loans.Effects.Create.{Lent, new_loan}
use library_api.Loans.Effects.Return.{Returned, returned_loan}
use library_api.Loans.Effects.Pay.{Paid, paid_loan}
use library_api.Loans.Effects.Update.{Updated}
use library_api.Loans.Effects.Cancel.{Cancelled, cancelled_loan}
use library_api.Loans.Effects.Renew.{Renewed, renewed_loan}
use library_api.Inventory.{shelf, Step, idle, lend, settle, adjust}

module _ ⦃ext : External⦄ where
  pub Unchanged-Step : {w w' : State} → Unchanged w w' → Step (shelf w) (shelf w')
  Unchanged-Step u = idle (ap (λ d. d.books) u.db) (ap (λ d. d.loans) u.db)

  pub Lent-Step : {input : CreateLoan} {w w' : State} → Lent input w w' → Step (shelf w) (shelf w')
  Lent-Step {input} {w} {w'} p =
      let (found, active, key) = find_where_self input.book_id (λ b. b.is_active) w.books p.found in
      lend p.book (new_loan input w) found p.available p.below_limit (sym key) refl refl p.books
        p.loans

  pub Returned-Step :
      {loan_id : String} {w w' : State} {r : ReturnLoanResponse}
      → Returned loan_id w r w'
      → Step (shelf w) (shelf w')
  Returned-Step {loan_id} {w} {w'} p =
      let (found, active, key) = find_where_self loan_id is_active w.loans p.active in
      let (shelf_found, there, book_key) =
        find_where_self p.loan.book_id (λ b. b.is_active) w.books p.found in
      settle p.book p.loan (returned_loan p.loan (ext.clock w.readings)) shelf_found found
        (record { user_id = refl; book_id = refl; loan_date = refl; was_active = active })
        (sym book_key) refl refl p.books p.loans

  pub Cancelled-Step :
      {loan_id : String} {w w' : State} → Cancelled loan_id w w' → Step (shelf w) (shelf w')
  Cancelled-Step {loan_id} {w} {w'} p =
      let (found, active, key) = find_where_self loan_id is_active w.loans p.active in
      let (shelf_found, there, book_key) =
        find_where_self p.loan.book_id (λ b. b.is_active) w.books p.found in
      settle p.book p.loan (cancelled_loan p.loan (ext.clock w.readings)) shelf_found found
        (record { user_id = refl; book_id = refl; loan_date = refl; was_active = active })
        (sym book_key) refl refl p.books p.loans

  pub Paid-Step :
      {loan_id : String} {w w' : State} {r : PayLoanFineResponse}
      → Paid loan_id w r w'
      → Step (shelf w) (shelf w')
  Paid-Step {loan_id} {w} {w'} p =
      let (found, active, key) = find_where_self loan_id is_active w.loans p.active in
      adjust p.loan (paid_loan p.loan (ext.clock w.readings)) found
        (record { user_id = refl; book_id = refl; loan_date = refl; was_active = active }) active
        (inl refl) p.books p.loans

  pub Renewed-Step :
      {loan_id : String} {w w' : State} {r : RenewLoanResponse}
      → Renewed loan_id w r w'
      → Step (shelf w) (shelf w')
  Renewed-Step {loan_id} {w} {w'} p =
      let (found, active, key) = find_where_self loan_id is_active w.loans p.active in
      adjust p.loan (renewed_loan p.loan) found
        (record { user_id = refl; book_id = refl; loan_date = refl; was_active = active }) active
        (inr (omega (arith, p.below_limit))) p.books p.loans

  pub Updated-Step :
      {loan_id : String} {input : UpdateLoan} {w w' : State}
      → Updated loan_id input w w'
      → Step (shelf w) (shelf w')
  Updated-Step {loan_id} {input} {w} {w'} p =
      let found = find_by_key_self loan_id w.loans p.found in
      let active : is_active p.loan ≡ true = ground (arith, p.active) in
      adjust p.loan (record p.loan { due_date = p.due_date }) found
        (record { user_id = refl; book_id = refl; loan_date = refl; was_active = active }) active
        (inl refl) p.books p.loans
