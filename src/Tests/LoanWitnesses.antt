-- ===== src/Tests/LoanWitnesses.antt =====
-- The theorems on the loan service at concrete inputs.
use library_api.Prelude.{◌≢◌, ◌≡◌, refl, some, arith}
use library_api.Datetime.{days, naive}
use library_api.Models.Loan.{LoanStatus, loan_row}
use library_api.Models.Book.{book_row}
use library_api.Responses.{Document, ReturnLoanResponse, PayLoanFineResponse, RenewLoanResponse}
use library_api.Table.{find_by_key}
use library_api.Exec.{ok, err}
use library_api.Errors.{domain, not_found}
use library_api.EventBus.{service_bus}
use library_api.Effects.{Ends, Returns, Unchanged}
use library_api.Cache.{cached}
use library_api.Books.Service.{delete_book}
use library_api.Loans.Queries.{get_loan, serialize_loan}
use library_api.Loans.Service.{
  UpdateLoan, create_loan, return_loan, pay_fine, cancel_loan, renew_loan,
}
use library_api.Loans.Effects.Create.{Lent, create_loan-Ends}
use library_api.Loans.Effects.Return.{Returned, return_loan-Ends}
use library_api.Loans.Effects.Pay.{Paid, pay_fine-Ends, paid_loan}
use library_api.Loans.Effects.Cancel.{Cancelled, cancel_loan-Ends}
use library_api.Loans.Effects.Renew.{Renewed, renew_loan-Ends}
use library_api.Loans.Payment.{return_loan-pay_fine}
use library_api.Loans.Returning.{create_loan-Returns}
use library_api.Loans.DeletedBook.{return_loan-delete_book}
use library_api.Loans.Coherence.{get_loan-pay_fine, get_loan-renew_loan}
use library_api.Tests.Fixture.{local, world, ana, casmurro, late_loan, noon}
use library_api.Tests.Worlds.{fresh_world, borrow, cached_loan, cached_world}

create_loan-Ends_example :
    Ends (λ r w'. Lent borrow world w') (Unchanged world) (create_loan service_bus borrow world)
create_loan-Ends_example = create_loan-Ends borrow world

return_loan-Ends_example :
    Ends
      (Returned "fresh" fresh_world)
      (Unchanged fresh_world)
      (return_loan service_bus "fresh" fresh_world)
return_loan-Ends_example = return_loan-Ends "fresh" fresh_world

pay_fine-Ends_example : Ends (Paid "late" world) (Unchanged world) (pay_fine "late" world)
pay_fine-Ends_example = pay_fine-Ends "late" world

abbrev later : UpdateLoan
later = record { due_date = some (naive (days 120)) }

cancel_loan-Ends_example :
    Ends
      (λ r w'. Cancelled "late" world w')
      (Unchanged world)
      (cancel_loan service_bus "late" world)
cancel_loan-Ends_example = cancel_loan-Ends "late" world

renew_loan-Ends_example :
    Ends (Renewed "fresh" fresh_world) (Unchanged fresh_world) (renew_loan "fresh" fresh_world)
renew_loan-Ends_example = renew_loan-Ends "fresh" fresh_world

create_loan-Returns_example : Returns (create_loan service_bus borrow world)
unfolding find_by_key
create_loan-Returns_example =
    create_loan-Returns borrow world ana casmurro refl (ground arith) refl (ground arith)

abbrev payment : PayLoanFineResponse
payment = record {
  id = "late";
  fine_amount = 600;
  payment_amount = 600;
  fine_paid_amount = 600;
  fine_paid_at = some noon;
}

return_loan-pay_fine_example :
    (s : ReturnLoanResponse) × ((return_loan service_bus "late" (pay_fine "late" world).1).0 ≡ ok s)
unfolding find_by_key pay_fine
return_loan-pay_fine_example =
    return_loan-pay_fine "late" world late_loan casmurro payment refl refl refl (ground arith)

get_loan-pay_fine_example :
    (get_loan "late" (pay_fine "late" world).1).0
    ≡ ok (Document.loan (serialize_loan (paid_loan late_loan noon) (pay_fine "late" world).1).0)
unfolding find_by_key pay_fine
get_loan-pay_fine_example = get_loan-pay_fine "late" world late_loan payment refl refl

abbrev renewal : RenewLoanResponse
renewal = record {
  id = "fresh";
  status = LoanStatus.active;
  due_date = days 119;
  renewal_count = 1;
}

get_loan-renew_loan_example :
    (get_loan "fresh" (renew_loan "fresh" cached_world).1).0 ≡ ok cached_loan
unfolding find_by_key renew_loan cached
get_loan-renew_loan_example = get_loan-renew_loan "fresh" cached_world cached_loan renewal refl refl

return_loan-delete_book_example :
    ((r : ReturnLoanResponse)
      → (return_loan service_bus "late" (delete_book "casmurro" world).1).0 ≢ ok r)
    × ((cancel_loan service_bus "late" (delete_book "casmurro" world).1).0
        ≡ err (domain (not_found "Livro não encontrado")))
unfolding find_by_key delete_book
return_loan-delete_book_example =
    return_loan-delete_book "casmurro" "late" world late_loan refl refl refl
