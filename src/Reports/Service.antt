-- ===== src/Reports/Service.antt =====
-- app/domain/reports/services/report_service.py: `ReportService`. A report only reads, so a method
-- is a function of the state. Amounts are summed in cents, where the source adds the floats.
use library_api.Prelude.{
  ℕ, ◌+◌, String, Bool, true, ◌&&◌, Option, none, some, List, [], ◌∷◌, ◌++◌, map, length, select,
  count, leb, ltb,
}
use library_api.Datetime.{Datetime, GivenDatetime, naive, aware}
use library_api.Models.Loan.{Loan, LoanStatus, status_eq, Cents}
use library_api.External.{External}
use library_api.World.{State}
use library_api.Loans.Repository.{text_filter, status_filter}
use library_api.Reports.Text.{Text, codes, str, date_text, isoformat, two_decimals, float_repr}
use library_api.Reports.Csv.{writerows}

-- An aware datetime stands for its instant, so dropping the offset in UTC keeps the number.
abbrev pub normalize_datetime : GivenDatetime → Datetime
normalize_datetime (naive d) = d
normalize_datetime (aware d) = d

abbrev pub from_filter : Option GivenDatetime → Datetime → Bool
from_filter none d = true
from_filter (some start_date) d = leb (normalize_datetime start_date) d

abbrev pub until_filter : Option GivenDatetime → Datetime → Bool
until_filter none d = true
until_filter (some end_date) d = leb d (normalize_datetime end_date)

-- The two conditions on `LoanModel.loan_date`.
unfoldable pub in_period : Option GivenDatetime → Option GivenDatetime → Loan → Bool
in_period start_date end_date l =
    from_filter start_date l.loan_date && until_filter end_date l.loan_date

-- `_apply_loan_filters`
unfoldable pub loan_filters :
    Option LoanStatus
    → Option String
    → Option String
    → Option GivenDatetime
    → Option GivenDatetime
    → Loan
    → Bool
unfolding in_period
loan_filters status user_id book_id start_date end_date l =
    status_filter status l.status
    && (text_filter user_id l.user_id
        && (text_filter book_id l.book_id && in_period start_date end_date l))

pub record Stats : Type 0 where
  pub total_books : ℕ
  pub total_users : ℕ
  pub total_loans : ℕ
  pub active_loans : ℕ
  pub returned_loans : ℕ
  pub cancelled_loans : ℕ
  pub total_fines : Cents

abbrev pub has_status : LoanStatus → Loan → Bool
has_status status l = status_eq l.status status

abbrev pub sum_fines : List Loan → Cents
sum_fines [] = 0
sum_fines (l ∷ loans) = l.fine_amount + sum_fines loans

-- `LoanStatus.value`
abbrev pub status_value : LoanStatus → String
status_value LoanStatus.active = "ACTIVE"
status_value LoanStatus.returned = "RETURNED"
status_value LoanStatus.cancelled = "CANCELLED"

abbrev pub optional : (Datetime → Text) → Option Datetime → Text
optional f none = []
optional f (some d) = f d

abbrev pub csv_header : List Text
csv_header = map codes (
    "id" ∷ "user_id" ∷ "book_id" ∷ "loan_date" ∷ "due_date" ∷ "returned_at" ∷ "cancelled_at"
    ∷ "status" ∷ "fine_amount" ∷ "renewal_count" ∷ [])

-- `fine_amount >= min_amount`, for the least number of cents that is not below `min_amount`.
abbrev pub min_filter : Option Cents → Loan → Bool
min_filter none l = true
min_filter (some min_amount) l = leb min_amount l.fine_amount

-- What a cell of a table in a document holds.
pub data Cell : Type 0 where
  text : Text → Cell
  wrapped : Text → Cell

-- The elements that `SimpleDocTemplate.build` lays out.
pub data Flowable : Type 0 where
  title : Text → Flowable
  paragraph : Text → Flowable
  spacer : Flowable
  table : List (List Cell) → Flowable

-- The loans of the report on fines.
unfoldable pub fined :
    Option String
    → Option String
    → Option Cents
    → Option GivenDatetime
    → Option GivenDatetime
    → Loan
    → Bool
unfolding loan_filters
fined user_id book_id min_amount start_date end_date l =
    ltb 0 l.fine_amount
    && (loan_filters none user_id book_id start_date end_date l && min_filter min_amount l)

abbrev pub fines_header : List Cell
fines_header =
    map (λ s. text (codes s))
      ("Loan ID" ∷ "User ID" ∷ "Book ID" ∷ "Status" ∷ "Due Date" ∷ "Returned At" ∷ "Fine" ∷ [])

module _ ⦃ext : External⦄ where
  abbrev pub get_stats : Option GivenDatetime → Option GivenDatetime → State → Stats
  get_stats start_date end_date w =
      let loans = select (in_period start_date end_date) w.loans in
      record {
        total_books = length w.books;
        total_users = length w.users;
        total_loans = length loans;
        active_loans = count (has_status LoanStatus.active) loans;
        returned_loans = count (has_status LoanStatus.returned) loans;
        cancelled_loans = count (has_status LoanStatus.cancelled) loans;
        total_fines = sum_fines loans;
      }

  abbrev pub csv_row : Loan → List Text
  csv_row loan =
      codes loan.id
      ∷ codes loan.user_id
      ∷ codes loan.book_id
      ∷ isoformat loan.loan_date
      ∷ isoformat loan.due_date
      ∷ optional isoformat loan.returned_at
      ∷ optional isoformat loan.cancelled_at
      ∷ codes (status_value loan.status)
      ∷ float_repr loan.fine_amount
      ∷ str loan.renewal_count
      ∷ []

  unfoldable pub generate_loans_csv :
      Option LoanStatus
      → Option String
      → Option String
      → Option GivenDatetime
      → Option GivenDatetime
      → State
      → Text
  generate_loans_csv status user_id book_id start_date end_date w =
      let loans = select (loan_filters status user_id book_id start_date end_date) w.loans in
      writerows (csv_header ∷ map csv_row loans)

  -- `R$ ` and an amount.
  abbrev pub price : Cents → Text
  price amount = codes "R$ " ++ two_decimals amount

  abbrev pub fines_summary : List Loan → Text
  fines_summary loans =
      codes "Total de registros: "
      ++ (str (length loans) ++ (codes " | Total de multas: " ++ price (sum_fines loans)))

  abbrev pub fine_row : Loan → List Cell
  fine_row loan =
      wrapped (codes loan.id)
      ∷ wrapped (codes loan.user_id)
      ∷ wrapped (codes loan.book_id)
      ∷ text (codes (status_value loan.status))
      ∷ text (date_text loan.due_date)
      ∷ text (optional date_text loan.returned_at)
      ∷ text (price loan.fine_amount)
      ∷ []

  -- `if not loans`
  abbrev pub fines_body : List Loan → Flowable
  fines_body [] = paragraph (codes "Nenhuma multa encontrada para os filtros informados.")
  fines_body (l ∷ loans) = table (fines_header ∷ map fine_row (l ∷ loans))

  -- The elements of the document; reportlab makes the file of them.
  unfoldable pub generate_fines_pdf :
      Option String
      → Option String
      → Option Cents
      → Option GivenDatetime
      → Option GivenDatetime
      → State
      → List Flowable
  unfolding fined
  generate_fines_pdf user_id book_id min_amount start_date end_date w =
      let loans = select (fined user_id book_id min_amount start_date end_date) w.loans in
      title (codes "Relatório de Multas")
      ∷ spacer
      ∷ paragraph (fines_summary loans)
      ∷ spacer
      ∷ fines_body loans
      ∷ []
