-- ===== src/Reports/Totals.antt =====
-- How the statistics, the export and the report on fines agree.
use library_api.Prelude.{
  ℕ, ◌+◌, ◌≡◌, refl, sym, ap, String, Option, none, some, List, [], ◌∷◌, ◌++◌, map, length, select,
  count, suc, weight, arith,
}
use library_api.Datetime.{GivenDatetime}
use library_api.Models.Loan.{Loan, LoanStatus, status_eq}
use library_api.External.{External}
use library_api.World.{State}
use library_api.Reports.Text.{codes, str}
use library_api.Reports.CsvReader.{Filled, read_csv, read_csv-writerows}
use library_api.Reports.Service.{
  Stats, get_stats, in_period, loan_filters, has_status, sum_fines, fined, csv_header, csv_row,
  generate_loans_csv, generate_fines_pdf, title, paragraph, spacer, fines_body, price,
}

one_status :
    (s : LoanStatus)
    → weight (status_eq s LoanStatus.active)
        + weight (status_eq s LoanStatus.returned)
        + weight (status_eq s LoanStatus.cancelled)
      ≡ 1
one_status LoanStatus.active = refl
one_status LoanStatus.returned = refl
one_status LoanStatus.cancelled = refl

by_status :
    (loans : List Loan)
    → count (has_status LoanStatus.active) loans
        + count (has_status LoanStatus.returned) loans
        + count (has_status LoanStatus.cancelled) loans
      ≡ length loans
by_status [] = refl
by_status (l ∷ loans) = ground (arith, one_status l.status, by_status loans)

length-map : {A B : Type 0} (f : A → B) (l : List A) → length (map f l) ≡ length l
length-map f [] = refl
length-map f (x ∷ l) = ap suc (length-map f l)

module _ (start_date end_date : Option GivenDatetime) where
  length-loan_filters :
      (status : LoanStatus) (loans : List Loan)
      → length (select (loan_filters (some status) none none start_date end_date) loans)
        ≡ count (has_status status) (select (in_period start_date end_date) loans)
  unfolding loan_filters
  length-loan_filters status [] = refl
  length-loan_filters status (l ∷ loans) = ground (arith, length-loan_filters status loans)

  sum_fines-fined :
      (loans : List Loan)
      → sum_fines (select (fined none none none start_date end_date) loans)
        ≡ sum_fines (select (in_period start_date end_date) loans)
  unfolding fined
  sum_fines-fined [] = refl
  sum_fines-fined (l ∷ loans) = ground (arith, sum_fines-fined loans)

-- The number of the statistics that counts the loans of a status.
abbrev pub loans_with : LoanStatus → Stats → ℕ
loans_with LoanStatus.active stats = stats.active_loans
loans_with LoanStatus.returned stats = stats.returned_loans
loans_with LoanStatus.cancelled stats = stats.cancelled_loans

module _ ⦃ext : External⦄ where
  Filled-map : (loans : List Loan) → Filled (map csv_row loans)
  Filled-map [] = tt
  Filled-map (l ∷ loans) = Filled-map loans

  -- Reading the exported text back gives the header and one row for each loan that passes the
  -- filters, in order, whatever characters the identifiers hold.
  pub read_csv-generate_loans_csv :
      (status : Option LoanStatus) (user_id book_id : Option String)
      (start_date end_date : Option GivenDatetime) (w : State)
      → read_csv (generate_loans_csv status user_id book_id start_date end_date w)
        ≡ csv_header
          ∷ map csv_row (select (loan_filters status user_id book_id start_date end_date) w.loans)
  unfolding generate_loans_csv
  read_csv-generate_loans_csv status user_id book_id start_date end_date w =
      let loans = select (loan_filters status user_id book_id start_date end_date) w.loans in
      read_csv-writerows (csv_header ∷ map csv_row loans) (Filled-map loans)

  -- The loans of a period that the statistics count as active, as returned and as cancelled add up
  -- to all that they count.
  pub get_stats-by_status :
      (start_date end_date : Option GivenDatetime) (w : State)
      → let stats = get_stats start_date end_date w in
        stats.active_loans + stats.returned_loans + stats.cancelled_loans ≡ stats.total_loans
  get_stats-by_status start_date end_date w =
      by_status (select (in_period start_date end_date) w.loans)

  loans_with_lem :
      (status : LoanStatus) (start_date end_date : Option GivenDatetime) (w : State)
      → loans_with status (get_stats start_date end_date w)
        ≡ count (has_status status) (select (in_period start_date end_date) w.loans)
  loans_with_lem LoanStatus.active start_date end_date w = refl
  loans_with_lem LoanStatus.returned start_date end_date w = refl
  loans_with_lem LoanStatus.cancelled start_date end_date w = refl

  -- The export for one status and a period, read back, has one row more, the header, than the
  -- statistics of the period count loans of the status.
  pub length-generate_loans_csv :
      (status : LoanStatus) (start_date end_date : Option GivenDatetime) (w : State)
      → length (read_csv (generate_loans_csv (some status) none none start_date end_date w))
        ≡ suc (loans_with status (get_stats start_date end_date w))
  length-generate_loans_csv status start_date end_date w =
      let loans = select (loan_filters (some status) none none start_date end_date) w.loans in
      let counted = length-loan_filters start_date end_date status w.loans in
      rw
        (
          read_csv-generate_loans_csv (some status) none none start_date end_date w,
          length-map csv_row loans,
          counted,
        )
        (ap suc (sym (loans_with_lem status start_date end_date w)))

  -- Without further filters, the total that the report on fines prints for a period is the total of
  -- fines in the statistics of the period.
  pub generate_fines_pdf-get_stats :
      (start_date end_date : Option GivenDatetime) (w : State)
      → let loans = select (fined none none none start_date end_date) w.loans in
        generate_fines_pdf none none none start_date end_date w
        ≡ title (codes "Relatório de Multas")
          ∷ spacer
          ∷ paragraph (
              codes "Total de registros: "
              ++ (str (length loans)
                  ++ (codes " | Total de multas: "
                      ++ price (get_stats start_date end_date w).total_fines)))
          ∷ spacer
          ∷ fines_body loans
          ∷ []
  unfolding generate_fines_pdf
  generate_fines_pdf-get_stats start_date end_date w =
      rw (sym (sum_fines-fined start_date end_date w.loans)) refl
