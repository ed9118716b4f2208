-- ===== src/Tests/ReportWitnesses.antt =====
-- The theorems on the reports and on the pages of users at concrete inputs, and texts that the
-- reports write.
use library_api.Prelude.{◌≡◌, ◌+◌, ◌*◌, refl, some, none, [], ◌∷◌, select, map, arith, ◌≤◌}
use library_api.Datetime.{days, aware}
use library_api.Models.Loan.{Loan, LoanStatus}
use library_api.World.{World}
use library_api.Reports.Text.{codes, isoformat, date_text, float_repr, two_decimals}
use library_api.Reports.Csv.{row_text}
use library_api.Reports.CsvReader.{read_csv}
use library_api.Reports.Service.{csv_header, csv_row, generate_loans_csv, loan_filters}
use library_api.Reports.Totals.{read_csv-generate_loans_csv}
use library_api.Users.Repository
use library_api.Users.Repository.{list_users}
use library_api.Users.Service.{list_users_paginated}
use library_api.Tests.Redis.{Store}
use library_api.Tests.Fixture.{local, world, tables, late_loan, noon}

-- A loan that was returned late, of a user whose identifier needs quotes.
abbrev returned_loan : Loan
returned_loan = record late_loan {
  id = "back";
  user_id = "a,\"b\"";
  status = LoanStatus.returned;
  returned_at = some noon;
  fine_amount = 650;
}

abbrev busy : World Store
busy = record world { db = record tables { loans = late_loan ∷ returned_loan ∷ [] } }

quoted : row_text (codes "a,\"b\"" ∷ codes "c" ∷ []) ≡ codes "\"a,\"\"b\"\"\",c"
quoted = refl

leap_day : isoformat (days 730_178 + 3_661_000_000) ≡ codes "2000-02-29T01:01:01"
unfolding isoformat
leap_day = refl

last_day_of_year : date_text (days 365 * 4 + days 0) ≡ codes "0004-12-31"
unfolding date_text
last_day_of_year = refl

one_digit : float_repr 250 ≡ codes "||.5"
unfolding float_repr
one_digit = refl

two_digits : float_repr 205 ≡ codes "||.05"
unfolding float_repr
two_digits = refl

whole : two_decimals 200 ≡ codes "||.00"
unfolding two_decimals
whole = refl

read_csv-generate_loans_csv_example :
    read_csv (generate_loans_csv none none none (some (aware (days 1))) none busy)
    ≡ csv_header
      ∷ map csv_row (select (loan_filters none none none (some (aware (days 1))) none) busy.loans)
read_csv-generate_loans_csv_example =
    read_csv-generate_loans_csv none none none (some (aware (days 1))) none busy

one_user : (list_users_paginated 1 10 world).total ≤ 1 * 10
unfolding list_users_paginated Repository.list_users_paginated
one_user = ground arith
