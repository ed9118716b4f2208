-- ===== src/Notifications/Once.antt =====
-- What `send_once_per_day` and the daily job can change.
use library_api.Prelude.{
  ◌≡◌, ◌≢◌, ◌≤◌, ◌+◌, count, select, length, List-cases, eq_iff, eq_refl, refl, ◌==◌, inl, inr,
  Bool, true, false, String, Option, none, some, List, [], ◌∷◌, arith,
}
use library_api.Datetime.{Date, date_of}
use library_api.Table.{count-insert}
use library_api.Models.Loan.{Loan}
use library_api.Models.Notification.{NotificationType, Notification}
use library_api.Exec.{ok}
use library_api.External.{External}
use library_api.World.{State, today}
use library_api.EventBus.Delivery.{Delivered}
use library_api.Loans.Repository as Loans
use library_api.Notifications.{
  sent_for_loan_on, send_once_per_day, exists_for_loan_today, send_unless, send_notification,
}
use library_api.Models.Notification.{type_eq}
use library_api.Notifications.Job.{remind_all, execute, remind_overdue, remind_due_on}

type_eq_refl : (t : NotificationType) → type_eq t t ≡ true
type_eq_refl t = ground arith

pub count-select :
    (p : Notification → Bool) (l : List Notification) → count p l ≡ length (select p l)
count-select p [] = ground arith
count-select p (n ∷ l) = ground (arith, count-select p l)

module _ ⦃ext : External⦄ where
  pub send_once_per_day-Delivered :
      (user_id : String) (type : NotificationType) (message : String)
      (loan_id other : Option String) (w : State)
      → Delivered w (send_once_per_day user_id type message loan_id other w).1
  unfolding send_once_per_day
  send_once_per_day-Delivered user_id type message loan_id other w = ground arith

  pub remind_all-Delivered :
      (type : NotificationType) (message : String) (loans : List Loan) (w : State)
      → Delivered w (remind_all type message loans w).1
  remind_all-Delivered type message [] w = ground arith
  remind_all-Delivered type message (loan ∷ loans) w =
      let (r, w₁) = send_once_per_day loan.user_id type message (some loan.id) none w in
      ground (
        arith,
        send_once_per_day-Delivered loan.user_id type message (some loan.id) none w,
        remind_all-Delivered type message loans w₁,
      )

  remind_overdue-Delivered : (w : State) → Delivered w (remind_overdue w).1
  unfolding remind_overdue
  remind_overdue-Delivered w =
      let (loans, w₁) = Loans.list_overdue_for_notifications w in
      ground (
        arith,
        remind_all-Delivered NotificationType.loan_overdue
            "Seu empréstimo está atrasado. Regularize a devolução." loans w₁,
      )

  remind_due_on-Delivered :
      (date : Date) (type : NotificationType) (message : String) (w : State)
      → Delivered w (remind_due_on date type message w).1
  unfolding remind_due_on
  remind_due_on-Delivered date type message w =
      remind_all-Delivered type message (Loans.list_due_on_date date w) w

  -- The daily job changes neither the cache nor any table but `notifications`.
  pub execute-Delivered : (w : State) → Delivered w (execute w).1
  unfolding execute
  execute-Delivered w =
      let date = ext.local_date w.readings in
      let w₁ = (today w).1 in
      let soon : String = "Seu empréstimo vence em 2 dias." in
      let now : String = "Seu empréstimo vence hoje." in
      let w₂ = (remind_due_on (date + 2) NotificationType.loan_due_soon soon w₁).1 in
      let w₃ = (remind_due_on date NotificationType.loan_due_today now w₂).1 in
      ground (
        arith,
        remind_due_on-Delivered (date + 2) NotificationType.loan_due_soon soon w₁,
        remind_due_on-Delivered date NotificationType.loan_due_today now w₂,
        remind_overdue-Delivered w₃,
      )

  pub nothing_sent :
      (loan_id : String) (type : NotificationType) (w : State)
      → select (sent_for_loan_on loan_id type (ext.local_date w.readings)) w.notifications ≡ []
      → exists_for_loan_today loan_id type w ≡ (ok false, (today w).1)
  unfolding exists_for_loan_today
  nothing_sent loan_id type w h = rw (h, h) refl

  pub one_sent :
      (loan_id : String) (type : NotificationType) (w : State) {n : Notification}
      → select (sent_for_loan_on loan_id type (ext.local_date w.readings)) w.notifications ≡ n ∷ []
      → exists_for_loan_today loan_id type w ≡ (ok true, (today w).1)
  unfolding exists_for_loan_today
  one_sent loan_id type w h = rw (h, h) refl

  -- If at most one notification of a type has gone out for a loan today, then after
  -- `send_once_per_day` exactly one has, provided that the loan's id is not empty and that the
  -- UTC day of the clock at the insertion is the day that `date.today()` answered at the test.
  pub send_once_per_day-once :
      (user_id : String) (type : NotificationType) (message loan_id : String)
      (other : Option String) (w : State)
      → loan_id ≢ ""
      → date_of (ext.clock (w.readings + 2)) ≡ ext.local_date w.readings
      → count (sent_for_loan_on loan_id type (ext.local_date w.readings)) w.notifications ≤ 1
      → let (r, w') = send_once_per_day user_id type message (some loan_id) other w in
        count (sent_for_loan_on loan_id type (ext.local_date w.readings)) w'.notifications ≡ 1
  unfolding send_once_per_day send_unless send_notification
  send_once_per_day-once user_id type message loan_id other w named same_day few =
      let sent = sent_for_loan_on loan_id type (ext.local_date w.readings) in
      let unnamed : (loan_id == "") ≡ false = ground (arith, eq_iff loan_id "") in
      let counted = count-select sent w.notifications in
      elim (List-cases (select sent w.notifications)) [
        | inl nothing ↦
            rw (unnamed, nothing_sent loan_id type w nothing, nothing_sent loan_id type w nothing)
              (rw (count-insert sent)
                (ground (arith, counted, nothing, eq_refl loan_id, type_eq_refl type)))
        | inr (first, rest, had) ↦ elim (List-cases rest) [
          | inl alone ↦
              rw
                (
                  unnamed,
                  one_sent loan_id type w (rw alone at had),
                  one_sent loan_id type w (rw alone at had),
                )
                (ground (arith, counted, had, alone))
          | inr (second, others, more) ↦ ground (arith, counted, had, more)
        ]
      ]
