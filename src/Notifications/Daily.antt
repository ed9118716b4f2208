-- ===== src/Notifications/Daily.antt =====
-- The daily job, day by day: how often a loan is reminded.
use library_api.Prelude.{
  ◌≡◌, ◌≢◌, ◌≤◌, ◌+◌, ◌<◌, inl, inr, ℕ, count, String, Option, none, some, List, [], ◌∷◌, arith,
}
use library_api.Datetime.{Date, date_of}
use library_api.Models.Loan.{Loan}
use library_api.Models.Notification.{NotificationType, Notification, notification_row}
use library_api.Exec.{Exec, Result, ok, err, ◌>>◌}
use library_api.External.{External}
use library_api.World.{State, today}
use library_api.Loans.Repository as Loans
use library_api.Notifications.{sent_for_loan_on, send_once_per_day}
use library_api.Notifications.Job.{remind_all, execute, remind_overdue, remind_due_on}
use library_api.Notifications.Once.{send_once_per_day-Delivered}
use library_api.Notifications.Sent.{send_once_per_day-cases, Sent-few}

module _ ⦃ext : External⦄ where
  -- Among the readings from `lo` on and before `hi`, the day of the clock is the one that
  -- `date.today()` answers two readings earlier, as it is read before an insertion.
  abbrev pub SameDay : ℕ → ℕ → Type 0
  SameDay lo hi = (n : ℕ) → lo ≤ n → n + 2 < hi → date_of (ext.clock (n + 2)) ≡ ext.local_date n

  module _ (k : String) (t : NotificationType) (d : Date) (named : k ≢ "") where
    abbrev HasFew : State → Type 0
    HasFew w = count (sent_for_loan_on k t d) w.notifications ≤ 1

    module _ (lo hi : ℕ) (agree : SameDay lo hi) where
      -- A run within these readings keeps it so.
      record Keeps (w w' : State) : Type 0 where
        read : w.readings ≤ w'.readings
        few : lo ≤ w.readings → w'.readings ≤ hi → HasFew w → HasFew w'

      Keeps-trans : {w v w' : State} → Keeps w v → Keeps v w' → Keeps w w'
      Keeps-trans p q = record {
        read = omega (arith, p.read, q.read);
        few = λ begun ended h.
            q.few (omega (arith, begun, p.read)) ended
              (p.few begun (omega (arith, ended, q.read)) h);
      }

      after :
          {A B : Type 0} (x : Result A × State) (m : Exec State B) {w : State}
          → Keeps w x.1
          → Keeps x.1 (m x.1).1
          → Keeps w (((λ _. x) >> m) w).1
      after (ok a, s) m p q = Keeps-trans p q
      after (err e, s) m p q = p

      send_once_per_day-Keeps :
          (user_id : String) (type : NotificationType) (message loan_id : String)
          (other : Option String) (w : State)
          → Keeps w (send_once_per_day user_id type message (some loan_id) other w).1
      send_once_per_day-Keeps user_id type message loan_id other w = record {
        read = (send_once_per_day-Delivered user_id type message (some loan_id) other w).read;
        few = λ begun ended few.
            elim (send_once_per_day-cases user_id type message loan_id other w
              (λ read. agree w.readings begun (ground (arith, read, ended)))) [
                | inl same ↦ rw same few
                | inr s ↦ Sent-few loan_id type _ w.notifications _ k t d named s few
              ];
      }

      remind_all-Keeps :
          (type : NotificationType) (message : String) (loans : List Loan) (w : State)
          → Keeps w (remind_all type message loans w).1
      remind_all-Keeps type message [] w = record {
        read = omega arith;
        few = λ begun ended few. few;
      }
      remind_all-Keeps type message (loan ∷ loans) w =
          let send : Exec State (Option Notification) =
            send_once_per_day loan.user_id type message (some loan.id) none in
          after (send w) (remind_all type message loans)
            (send_once_per_day-Keeps loan.user_id type message loan.id none w)
            (remind_all-Keeps type message loans (send w).1)

      clock_read : (w : State) → Keeps w (today w).1
      clock_read w = record { read = omega arith; few = λ begun ended few. few }

      remind_overdue-Keeps : (w : State) → Keeps w (remind_overdue w).1
      unfolding remind_overdue
      remind_overdue-Keeps w =
          let (loans, w₁) = Loans.list_overdue_for_notifications w in
          let p =
            remind_all-Keeps NotificationType.loan_overdue
              "Seu empréstimo está atrasado. Regularize a devolução." loans w₁ in
          Keeps-trans (clock_read w) p

      remind_due_on-Keeps :
          (date : Date) (type : NotificationType) (message : String) (w : State)
          → Keeps w (remind_due_on date type message w).1
      unfolding remind_due_on
      remind_due_on-Keeps date type message w =
          remind_all-Keeps type message (Loans.list_due_on_date date w) w

      execute-Keeps : (w : State) → Keeps w (execute w).1
      unfolding execute
      execute-Keeps w =
          let date = ext.local_date w.readings in
          let w₁ = (today w).1 in
          let first =
            remind_due_on (date + 2) NotificationType.loan_due_soon
              "Seu empréstimo vence em 2 dias." in
          let second =
            remind_due_on date NotificationType.loan_due_today "Seu empréstimo vence hoje." in
          let w₂ = (first w₁).1 in
          Keeps-trans (clock_read w) (
            after (first w₁) (second >> remind_overdue)
              (remind_due_on-Keeps (date + 2) NotificationType.loan_due_soon
                "Seu empréstimo vence em 2 dias." w₁)
              (after (second w₂) remind_overdue
                (remind_due_on-Keeps date NotificationType.loan_due_today
                  "Seu empréstimo vence hoje." w₂)
                (remind_overdue-Keeps (second w₂).1)))

    -- The daily job keeps it so that at most one notification of a type has gone out for a loan on
    -- a day, if the loan's id is not empty and the day does not change while the job runs: at each of
    -- its readings, `date.today()` answers the day of the clock two readings later.
    pub execute-HasFew :
        (w : State) → SameDay w.readings (execute w).1.readings → HasFew w → HasFew (execute w).1
    execute-HasFew w agree few =
        (execute-Keeps w.readings (execute w).1.readings agree w).few (omega arith) (omega arith)
          few
