-- ===== src/Reports/Controller.antt =====
-- app/domain/reports/controllers/report_controller.py.
use library_api.Prelude.{String, Option, List}
use library_api.Datetime.{GivenDatetime}
use library_api.Models.Loan.{LoanStatus, Cents}
use library_api.Exec.{Exec, gets, ◌>>◌}
use library_api.External.{External}
use library_api.World.{State}
use library_api.Security.{get_current_admin}
use library_api.Reports.Text.{Text}
use library_api.Reports.Service.{Stats, Flowable}
use library_api.Reports.Service as Reports

module _ ⦃ext : External⦄ where
  abbrev pub get_stats : ext.Token → Option GivenDatetime → Option GivenDatetime → Exec State Stats
  get_stats token start_date end_date =
      get_current_admin token >> gets (Reports.get_stats start_date end_date)

  abbrev pub export_loans_csv :
      ext.Token
      → Option LoanStatus
      → Option String
      → Option String
      → Option GivenDatetime
      → Option GivenDatetime
      → Exec State Text
  export_loans_csv token status user_id book_id start_date end_date =
      get_current_admin token
      >> gets (Reports.generate_loans_csv status user_id book_id start_date end_date)

  abbrev pub export_fines_pdf :
      ext.Token
      → Option String
      → Option String
      → Option Cents
      → Option GivenDatetime
      → Option GivenDatetime
      → Exec State (List Flowable)
  export_fines_pdf token user_id book_id min_amount start_date end_date =
      get_current_admin token
      >> gets (Reports.generate_fines_pdf user_id book_id min_amount start_date end_date)
