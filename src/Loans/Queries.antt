-- ===== src/Loans/Queries.antt =====
-- app/domain/loans/services/loan_service.py: the methods that only read, and the cache that they
-- fill.
use library_api.Prelude.{
  ℕ, String, Bool, true, ◌&&◌, Option, none, some, List, [], ◌∷◌, ltb, if◌then◌else◌,
}
use library_api.Datetime.{Datetime}
use library_api.Errors.{not_found}
use library_api.Models.Loan.{Loan, LoanStatus, status_eq}
use library_api.Models.User.{User, user_row}
use library_api.Responses.{LoanResponse, Document}
use library_api.Exec.{Exec, pure, run, gets, or_raise, ◌>>=◌, ◌>>◌}
use library_api.External.{External}
use library_api.World.{State, utcnow}
use library_api.Users.Repository as Users
use library_api.Cache
use library_api.Cache.Keys.{loan_item_key, loans_list_key, loans_user_key}
use library_api.Loans.Fine.{calculate_days_late, calculate_amount}
use library_api.Loans.Repository

abbrev pub loan_cache_ttl_seconds : ℕ
loan_cache_ttl_seconds = 30

module _ ⦃ext : External⦄ where
  -- `loan.returned_at if loan.status == RETURNED else datetime.utcnow()`
  abbrev pub reference_date_of : Loan → State → Option Datetime × State
  reference_date_of loan w = elim loan.status [
    | LoanStatus.returned ↦ (loan.returned_at, w)
    | _ ↦ let (now, w') = utcnow w in (some now, w')
  ]

  -- `_serialize_loan`
  unfoldable pub serialize_loan : Loan → State → LoanResponse × State
  unfolding calculate_days_late calculate_amount
  serialize_loan loan w =
      let (reference_date, w₁) = reference_date_of loan w in
      let (days_late, w₂) = calculate_days_late loan.due_date reference_date w₁ in
      let (current_fine_amount, w₃) = calculate_amount loan.due_date reference_date w₂ in
      let is_active = status_eq loan.status LoanStatus.active in
      (
        record {
          id = loan.id;
          user_id = loan.user_id;
          book_id = loan.book_id;
          loan_date = loan.loan_date;
          due_date = loan.due_date;
          returned_at = loan.returned_at;
          cancelled_at = loan.cancelled_at;
          status = loan.status;
          fine_amount = loan.fine_amount;
          fine_paid_at = loan.fine_paid_at;
          fine_paid_amount = loan.fine_paid_amount;
          current_fine_amount = if is_active then current_fine_amount else loan.fine_amount;
          days_late = days_late;
          is_overdue = is_active && ltb 0 days_late;
          renewal_count = loan.renewal_count;
        },
        w₃,
      )

  unfoldable pub serialize_all : List Loan → State → List LoanResponse × State
  unfolding serialize_loan
  serialize_all [] w = ([], w)
  serialize_all (loan ∷ loans) w =
      let (first, w₁) = serialize_loan loan w in
      let (rest, w₂) = serialize_all loans w₁ in (first ∷ rest, w₂)

  unfoldable pub load_loan : String → Exec State Document
  unfolding serialize_loan
  load_loan loan_id = do
    found ← gets (Repository.find_by_id loan_id)
    loan ← or_raise found (not_found "Empréstimo não encontrado")
    serialized_loan ← run (serialize_loan loan)
    pure (Document.loan serialized_loan)

  unfoldable pub get_loan : String → Exec State Document
  unfolding Cache.read_through load_loan
  get_loan loan_id =
      Cache.read_through (loan_item_key loan_id) loan_cache_ttl_seconds (load_loan loan_id)

  unfoldable pub list_active : State → List LoanResponse × State
  list_active w = serialize_all (Repository.list_active w) w

  unfoldable pub list_overdue : State → List LoanResponse × State
  list_overdue w = let (loans, w') = Repository.list_overdue w in serialize_all loans w'

  unfoldable pub list_by_user : String → State → List LoanResponse × State
  list_by_user user_id w = serialize_all (Repository.list_by_user user_id w) w

  abbrev pub loan_page : ℕ → ℕ → (State → (List Loan × ℕ) × State) → Exec State Document
  loan_page page size query = do
    found ← run query
    items ← run (serialize_all found.0)
    pure (Document.loan_page (record { items = items; total = found.1; page = page; size = size }))

  unfoldable pub list_paginated :
      ℕ → ℕ → Option String → Option String → Option LoanStatus → Option Bool → Exec State Document
  unfolding Cache.read_through
  list_paginated page size user_id book_id status overdue =
      Cache.read_through (loans_list_key page size user_id book_id status overdue)
        loan_cache_ttl_seconds
        (loan_page page size (Repository.list_paginated page size user_id book_id status overdue))

  unfoldable pub list_active_paginated : ℕ → ℕ → Exec State Document
  unfolding list_paginated
  list_active_paginated page size = list_paginated page size none none (some LoanStatus.active) none

  unfoldable pub list_overdue_paginated : ℕ → ℕ → Exec State Document
  unfolding list_paginated
  list_overdue_paginated page size = list_paginated page size none none none (some true)

  abbrev pub find_user : String → State → Option User
  find_user user_id w = Users.find_by_id user_id w

  unfoldable pub list_by_user_paginated : String → ℕ → ℕ → Option LoanStatus → Exec State Document
  unfolding Cache.read_through
  list_by_user_paginated user_id page size status =
      Cache.read_through (loans_user_key user_id page size status) loan_cache_ttl_seconds (do
        found ← gets (find_user user_id)
        or_raise found (not_found "Usuário não encontrado")
        loan_page page size (Repository.find_by_user_paginated user_id page size status))
