-- ===== src/Loans/Repository.antt =====
-- app/domain/loans/repositories: `LoanRepository`. A SELECT without ORDER BY returns the rows in
-- the order in which the table lists them.
use library_api.Prelude.{
  ℕ, ◌*◌, ◌-◌, String, Bool, true, false, ◌&&◌, ◌||◌, not, Option, none, some, List, ◌==◌, eqb, leb,
  ltb, if◌then◌else◌, select, count, take, drop,
}
use library_api.Datetime.{Datetime, Date, date_of}
use library_api.Models.Book.{Book, book_row}
use library_api.Models.Loan.{Loan, LoanStatus, status_eq, loan_row}
use library_api.Table.{insert, find_by_key, find_where, save}
use library_api.External.{External}
use library_api.World.{State, with_loans, with_books, utcnow}

abbrev pub is_active : Loan → Bool
is_active l = status_eq l.status LoanStatus.active

abbrev pub is_active_of_user : String → Loan → Bool
is_active_of_user user_id l = l.user_id == user_id && is_active l

abbrev pub is_active_of_book : String → Loan → Bool
is_active_of_book book_id l = l.book_id == book_id && is_active l

-- `LoanModel.due_date < now` on an active loan.
abbrev pub is_overdue_at : Datetime → Loan → Bool
is_overdue_at now l = is_active l && ltb l.due_date now

abbrev pub is_due_on : Date → Loan → Bool
is_due_on due_date l = is_active l && eqb (date_of l.due_date) due_date

abbrev pub text_filter : Option String → String → Bool
text_filter none t = true
text_filter (some s) t = if s == "" then true else t == s

abbrev pub status_filter : Option LoanStatus → LoanStatus → Bool
status_filter none t = true
status_filter (some s) t = status_eq t s

abbrev pub overdue_filter : Option Bool → Datetime → Loan → Bool
overdue_filter none now l = true
overdue_filter (some true) now l = is_overdue_at now l
overdue_filter (some false) now l = not (is_active l) || leb now l.due_date

-- The conjunction of the filters that `list_paginated` collects.
unfoldable pub passes :
    Option String → Option String → Option LoanStatus → Option Bool → Datetime → Loan → Bool
passes user_id book_id status overdue now l =
    text_filter user_id l.user_id
    && (text_filter book_id l.book_id
        && (status_filter status l.status && overdue_filter overdue now l))

module _ ⦃ext : External⦄ where
  abbrev pub create : Loan → State → State
  create loan w = with_loans w (insert loan w.loans)

  abbrev pub find_by_id : String → State → Option Loan
  find_by_id loan_id w = find_by_key loan_id w.loans

  abbrev pub count_active_by_user : String → State → ℕ
  count_active_by_user user_id w = count (is_active_of_user user_id) w.loans

  abbrev pub get_book_for_update : String → State → Option Book
  get_book_for_update book_id w = find_where book_id (λ b. b.is_active) w.books

  abbrev pub find_active_by_id_for_update : String → State → Option Loan
  find_active_by_id_for_update loan_id w = find_where loan_id is_active w.loans

  -- The flush of a changed loan and of a changed book, before the commit.
  abbrev pub save_loan : Loan → State → State
  save_loan loan w = with_loans w (save loan w.loans)

  abbrev pub save_book : Book → State → State
  save_book book w = with_books w (save book w.books)

  unfoldable pub list_active : State → List Loan
  list_active w = select is_active w.loans

  unfoldable pub list_overdue : State → List Loan × State
  list_overdue w = let (now, w') = utcnow w in (select (is_overdue_at now) w'.loans, w')

  unfoldable pub list_by_user : String → State → List Loan
  list_by_user user_id w = select (λ l. l.user_id == user_id) w.loans

  unfoldable pub list_paginated :
      ℕ
      → ℕ
      → Option String
      → Option String
      → Option LoanStatus
      → Option Bool
      → State
      → (List Loan × ℕ) × State
  unfolding passes
  list_paginated page size user_id book_id status overdue w =
      let (now, w') = utcnow w in
      let p = passes user_id book_id status overdue now in
      ((take size (drop ((page - 1) * size) (select p w'.loans)), count p w'.loans), w')

  unfoldable pub find_by_user_paginated :
      String → ℕ → ℕ → Option LoanStatus → State → (List Loan × ℕ) × State
  unfolding list_paginated
  find_by_user_paginated user_id page size status w =
      list_paginated page size (some user_id) none status none w

  unfoldable pub list_due_on_date : Date → State → List Loan
  list_due_on_date due_date w = select (is_due_on due_date) w.loans

  unfoldable pub list_overdue_for_notifications : State → List Loan × State
  list_overdue_for_notifications w =
      let (now, w') = utcnow w in (select (is_overdue_at now) w'.loans, w')
