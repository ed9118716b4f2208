-- ===== src/Loans/Controller.antt =====
-- app/domain/loans/controllers/loan_controller.py.
use library_api.Prelude.{String, Bool, true, false, Option, ◌==◌, if◌then◌else◌}
use library_api.Prelude.Int.{ℤ}
use library_api.Errors.{key_error, unauthorized}
use library_api.Models.User.{User}
use library_api.Models.Loan.{LoanStatus}
use library_api.Responses.{
  Document, LoanResponse, ReturnLoanResponse, CancelLoanResponse, PayLoanFineResponse,
  RenewLoanResponse,
}
use library_api.EventBus.{service_bus}
use library_api.Exec.{Exec, pure, raise, raise_if, ◌>>=◌, ◌>>◌}
use library_api.External.{External}
use library_api.World.{State}
use library_api.Security.{is_admin, get_current_user, get_current_admin}
use library_api.Pagination.{page_query}
use library_api.Loans.Service.{CreateLoan, UpdateLoan}
use library_api.Loans.Service as Loans
use library_api.Loans.Queries

abbrev pub user_is_not_admin_and_does_not_own_loan : User → String → Bool
user_is_not_admin_and_does_not_own_loan user loan_user_id =
    if is_admin user then false else if loan_user_id == user.id then false else true

-- `loan["user_id"]`
abbrev pub owner_of : {S : Type 0} → Document → Exec S String
owner_of (Document.loan l) = pure l.user_id
owner_of _ = raise key_error

module _ ⦃ext : External⦄ where
  -- How the endpoints for one loan begin: the loan must be the user's, or the user an administrator.
  unfoldable pub own_loan : String → ext.Token → String → Exec State (Unit {0})
  unfolding get_current_user Queries.get_loan
  own_loan message token loan_id = do
    user ← get_current_user token
    loan ← Queries.get_loan loan_id
    loan_user_id ← owner_of loan
    raise_if (user_is_not_admin_and_does_not_own_loan user loan_user_id) (unauthorized message)

  unfoldable pub list_loans :
      ext.Token
      → ℤ
      → ℤ
      → Option String
      → Option String
      → Option LoanStatus
      → Option Bool
      → Exec State Document
  list_loans token page size user_id book_id status overdue = do
    get_current_admin token
    query ← page_query page size
    Queries.list_paginated query.0 query.1 user_id book_id status overdue

  unfoldable pub list_loans_by_user :
      ext.Token → String → ℤ → ℤ → Option LoanStatus → Exec State Document
  list_loans_by_user token user_id page size status = do
    user ← get_current_user token
    query ← page_query page size
    raise_if (user_is_not_admin_and_does_not_own_loan user user_id)
        (unauthorized "Você só pode acessar seus próprios empréstimos")
    Queries.list_by_user_paginated user_id query.0 query.1 status

  abbrev pub update_loan : ext.Token → String → UpdateLoan → Exec State LoanResponse
  update_loan token loan_id input = get_current_admin token >> Loans.update_loan loan_id input

  abbrev pub cancel_loan : ext.Token → String → Exec State CancelLoanResponse
  cancel_loan token loan_id =
      own_loan "Você só pode cancelar seus próprios empréstimos" token loan_id
      >> Loans.cancel_loan service_bus loan_id

  abbrev pub pay_loan_fine : ext.Token → String → Exec State PayLoanFineResponse
  pay_loan_fine token loan_id =
      own_loan "Você só pode pagar seus próprios empréstimos" token loan_id
      >> Loans.pay_fine loan_id

  abbrev pub create_loan : ext.Token → CreateLoan → Exec State LoanResponse
  create_loan token input = get_current_admin token >> Loans.create_loan service_bus input

  unfoldable pub list_active_loans : ext.Token → ℤ → ℤ → Exec State Document
  list_active_loans token page size = do
    get_current_admin token
    query ← page_query page size
    Queries.list_active_paginated query.0 query.1

  unfoldable pub list_overdue_loans : ext.Token → ℤ → ℤ → Exec State Document
  list_overdue_loans token page size = do
    get_current_admin token
    query ← page_query page size
    Queries.list_overdue_paginated query.0 query.1

  abbrev pub get_loan : ext.Token → String → Exec State Document
  get_loan token loan_id =
      own_loan "Você só pode visualizar seus próprios empréstimos" token loan_id
      >> Queries.get_loan loan_id

  abbrev pub return_loan : ext.Token → String → Exec State ReturnLoanResponse
  return_loan token loan_id =
      own_loan "Você só pode devolver seus próprios empréstimos" token loan_id
      >> Loans.return_loan service_bus loan_id

  abbrev pub renew_loan : ext.Token → String → Exec State RenewLoanResponse
  renew_loan token loan_id =
      own_loan "Você só pode renovar seus próprios empréstimos" token loan_id
      >> Loans.renew_loan loan_id
