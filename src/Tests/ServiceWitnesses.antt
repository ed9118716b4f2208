-- ===== src/Tests/ServiceWitnesses.antt =====
-- The theorems on the books, the reservations, the daily job and the fine at concrete inputs.
use library_api.Prelude.{
  ◌≡◌, ◌≤◌, ◌+◌, ◌*◌, ◌↔◌, none, some, true, false, String, arith, count, eq_iff,
}
use library_api.Prelude.Int.{pos}
use library_api.Datetime.{days, date_of}
use library_api.Models.Notification.{NotificationType, notification_row}
use library_api.Books.Service.{UpdateBook, update_book}
use library_api.Books.Update.{Outcome, update_book-Outcome}
use library_api.Reservations.Service.{CreateReservation}
use library_api.Notifications.{sent_for_loan_on, send_once_per_day}
use library_api.Notifications.Job.{execute}
use library_api.Notifications.Daily.{SameDay, execute-HasFew}
use library_api.Loans.Fine.{amount_at}
use library_api.Loans.FineLaws.{amount_at_lem}
use library_api.Tests.Fixture.{local, world, noon}

abbrev two_more : UpdateBook
two_more = record { title = none; category = none; total_copies = some (pos 4) }

abbrev of_casmurro : CreateReservation
of_casmurro = record { book_id = "casmurro" }

update_book-Outcome_example :
    Outcome "casmurro" two_more world (update_book "casmurro" two_more world)
update_book-Outcome_example = update_book-Outcome "casmurro" two_more world

late_is_named : ¬ (◌≡◌ {A = String} "late" "")
late_is_named e = let b : false ≡ true = (eq_iff "late" "").1 e in ground (arith, b)

amount_at_lem_example :
    ((amount_at (days 97) noon ≡ 0) ↔ (date_of noon ≤ date_of (days 97)))
    × (date_of (days 100) ≡ date_of noon
        → amount_at (days 97) (days 100) ≡ amount_at (days 97) noon)
    × (days 97 ≤ noon → amount_at (days 97) (noon + days 3) ≡ amount_at (days 97) noon + 3 * 200)
amount_at_lem_example = amount_at_lem (days 97) noon (days 100) 3

-- The clock goes on by a microsecond at each reading, and stays within day 100.
same_day : SameDay world.readings (execute world).1.readings
unfolding execute send_once_per_day
same_day n begun ended = ground (arith, ended)

execute-HasFew_example :
    count
      (sent_for_loan_on "late" NotificationType.loan_overdue 100)
      (execute world).1.notifications
    ≤ 1
execute-HasFew_example =
    execute-HasFew "late" NotificationType.loan_overdue 100 late_is_named world same_day
      (ground arith)
