-- ===== src/Loans/Service/Shared.antt =====
-- app/domain/loans/services/loan_service.py and schemas/loan_schema.py: the constants of the
-- service, what its methods are given, and what they share.
use Prim.Native.String.{◌++◌}
use library_api.Prelude.{ℕ, String, Option}
use library_api.Datetime.{Datetime, GivenDatetime}
use library_api.Models.Loan.{Loan}
use library_api.Events.{LoanEvent}
use library_api.External.{External}
use library_api.World.{State, Metrics}
use library_api.Cache
use library_api.Cache.Keys.{book_detail_key, loan_item_key, loans_user_prefix}

abbrev pub loan_days : ℕ
loan_days = 14

abbrev pub max_active_loans : ℕ
max_active_loans = 3

abbrev pub renewal_days : ℕ
renewal_days = 7

abbrev pub max_renewals : ℕ
max_renewals = 2

pub record CreateLoan : Type 0 where
  pub user_id : String
  pub book_id : String

pub record UpdateLoan : Type 0 where
  pub due_date : Option GivenDatetime

module _ ⦃ext : External⦄ where
  -- `_invalidate_loan_cache`
  abbrev pub invalidate_loan_cache : String → String → State → State
  invalidate_loan_cache user_id loan_id w =
      Cache.delete_pattern (loans_user_prefix user_id ++ "*")
        (Cache.delete_pattern "loans:list*" (Cache.delete (loan_item_key loan_id) w))

  -- The deletions after a change of a book's copies.
  abbrev pub invalidate_book_cache : String → State → State
  invalidate_book_cache book_id w =
      Cache.delete_pattern "books:list*" (Cache.delete (book_detail_key book_id) w)

  abbrev pub count_metric : (Metrics → Metrics) → State → State
  count_metric f w = record w { metrics = f w.metrics }

  abbrev pub loan_event : Datetime → Loan → LoanEvent
  loan_event occurred_at loan = record {
    occurred_at = occurred_at;
    loan_id = loan.id;
    user_id = loan.user_id;
    book_id = loan.book_id;
  }
