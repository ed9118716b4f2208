-- ===== src/Models/Notification.antt =====
-- app/domain/notifications: `NotificationModel` and its two enums.
use library_api.Prelude.{ℕ, String, Bool, Option, eqb}
use library_api.Datetime.{Datetime}
use library_api.Table.{Row}

pub data NotificationType : Type 0 where
  loan_created loan_returned loan_cancelled loan_due_soon loan_due_today : NotificationType
  loan_overdue reservation_created reservation_cancelled : NotificationType

-- The position of a type in the enum, by which types are compared.
abbrev pub ordinal : NotificationType → ℕ
ordinal NotificationType.loan_created = 0
ordinal NotificationType.loan_returned = 1
ordinal NotificationType.loan_cancelled = 2
ordinal NotificationType.loan_due_soon = 3
ordinal NotificationType.loan_due_today = 4
ordinal NotificationType.loan_overdue = 5
ordinal NotificationType.reservation_created = 6
ordinal NotificationType.reservation_cancelled = 7

abbrev pub type_eq : NotificationType → NotificationType → Bool
type_eq s t = eqb (ordinal s) (ordinal t)

pub data NotificationStatus : Type 0 where
  sent failed : NotificationStatus

pub record Notification : Type 0 where
  pub id : String
  pub user_id : String
  pub loan_id : Option String
  pub reservation_id : Option String
  pub type : NotificationType
  pub status : NotificationStatus
  pub channel : String
  pub message : String
  pub sent_at : Option Datetime
  pub created_at : Datetime

instance abbrev pub notification_row : Row Notification
notification_row = record { id_of = λ n. n.id }
