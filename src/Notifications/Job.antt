-- ===== src/Notifications/Job.antt =====
-- app/domain/notifications/jobs: `DueLoanNotificationJob`, which app/schedule/scheduler.py runs
-- every day at eight, and an administrator at will.
use library_api.Prelude.{◌+◌, String, none, some, List, [], ◌∷◌}
use library_api.Datetime.{Date}
use library_api.Models.Loan.{Loan}
use library_api.Models.Notification.{NotificationType}
use library_api.Exec.{Exec, pure, run, gets, ◌>>=◌, ◌>>◌}
use library_api.External.{External}
use library_api.World.{State, today}
use library_api.Loans.Repository as Loans
use library_api.Notifications.{send_once_per_day}

module _ ⦃ext : External⦄ where
  -- `for loan in loans: send_once_per_day(...)`
  abbrev pub remind_all : NotificationType → String → List Loan → Exec State (Unit {0})
  remind_all type message [] = pure tt
  remind_all type message (loan ∷ loans) =
      send_once_per_day loan.user_id type message (some loan.id) none
      >> remind_all type message loans

  unfoldable pub remind_overdue : Exec State (Unit {0})
  unfolding send_once_per_day Loans.list_overdue_for_notifications
  remind_overdue = do
    overdue_loans ← run Loans.list_overdue_for_notifications
    remind_all NotificationType.loan_overdue "Seu empréstimo está atrasado. Regularize a devolução."
        overdue_loans

  unfoldable pub remind_due_on : Date → NotificationType → String → Exec State (Unit {0})
  unfolding send_once_per_day Loans.list_due_on_date
  remind_due_on date type message = do
    due_loans ← gets (Loans.list_due_on_date date)
    remind_all type message due_loans

  -- The three rounds; `date.today()` is read once, at the start.
  unfoldable pub execute : Exec State (Unit {0})
  unfolding remind_due_on remind_overdue
  execute = do
    date ← run today
    remind_due_on (date + 2) NotificationType.loan_due_soon "Seu empréstimo vence em 2 dias."
    remind_due_on date NotificationType.loan_due_today "Seu empréstimo vence hoje."
    remind_overdue
