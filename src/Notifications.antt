-- ===== src/Notifications.antt =====
-- app/domain/notifications: `NotificationRepository` and `NotificationService`.
pub mod Once
pub mod Sent
pub mod Daily
pub mod Job
pub mod Controller
use library_api.Prelude.{
  ℕ, ◌+◌, ◌*◌, ◌-◌, String, Bool, true, false, ◌&&◌, Option, none, some, List, arith, ◌==◌, eqb,
  if◌then◌else◌, is_some, select, count, take, drop,
}
use library_api.Datetime.{Date, date_of}
use library_api.Models.Notification.{
  Notification, NotificationType, NotificationStatus, type_eq, notification_row,
}
use library_api.Responses.{Page}
use library_api.Table.{insert, scalar_one_or_none}
use library_api.Exec.{Exec, pure, run, gets, scalar, ◌>>=◌}
use library_api.External.{External}
use library_api.World.{World, State, with_notifications, utcnow, today, new_id}

abbrev pub same_text : Option String → String → Bool
same_text none t = false
same_text (some s) t = s == t

-- The conditions of `exists_for_loan_today`.
abbrev pub sent_for_loan_on : String → NotificationType → Date → Notification → Bool
sent_for_loan_on loan_id type date n =
    same_text n.loan_id loan_id && type_eq n.type type && eqb (date_of n.created_at) date

-- `if user_id: query.where(...)`
abbrev pub for_user : Option String → Notification → Bool
for_user none n = true
for_user (some u) n = if u == "" then true else n.user_id == u

module _ ⦃ext : External⦄ where
  -- `repository.create`
  abbrev pub create : Notification → State → State
  create n w = with_notifications w (insert n w.notifications)

  -- `send_notification`; the id and `created_at` are defaults that the flush fills in.
  unfoldable pub send_notification :
      String
      → NotificationType
      → String
      → Option String
      → Option String
      → State
      → Notification × State
  send_notification user_id type message loan_id reservation_id w =
      let (sent_at, w₁) = utcnow w in
      let (id, w₂) = new_id w₁ in
      let (created_at, w₃) = utcnow w₂ in
      let created : Notification = record {
        id = id;
        user_id = user_id;
        loan_id = loan_id;
        reservation_id = reservation_id;
        type = type;
        status = NotificationStatus.sent;
        channel = "EMAIL_FAKE";
        message = message;
        sent_at = some sent_at;
        created_at = created_at;
      } in
      let w₄ = create created w₃ in
      (
        created,
        record w₄ {
          metrics = record w₄.metrics {
            notifications_sent_total = w₄.metrics.notifications_sent_total + 1;
          };
        },
      )

  unfoldable pub exists_for_loan_today : String → NotificationType → Exec State Bool
  exists_for_loan_today loan_id type = do
    date ← run today
    rows ← gets (λ w. select (sent_for_loan_on loan_id type date) w.notifications)
    found ← scalar (scalar_one_or_none rows)
    pure (is_some found)

  unfoldable pub send_unless :
      Bool
      → String
      → NotificationType
      → String
      → Option String
      → Option String
      → Exec State (Option Notification)
  unfolding send_notification
  send_unless true user_id type message loan_id reservation_id = pure none
  send_unless false user_id type message loan_id reservation_id = do
    created ← run (send_notification user_id type message loan_id reservation_id)
    pure (some created)

  abbrev pub already_sent : Option String → NotificationType → Exec State Bool
  already_sent none type = pure false
  already_sent (some loan_id) type =
      if loan_id == "" then pure false else exists_for_loan_today loan_id type

  unfoldable pub send_once_per_day :
      String
      → NotificationType
      → String
      → Option String
      → Option String
      → Exec State (Option Notification)
  unfolding send_unless exists_for_loan_today
  send_once_per_day user_id type message loan_id reservation_id = do
    sent ← already_sent loan_id type
    send_unless sent user_id type message loan_id reservation_id

  -- `list_paginated` over rows that the database has put in the order of `created_at`, newest
  -- first.
  unfoldable pub list_paginated :
      (List Notification → List Notification) → ℕ → ℕ → Option String → State → Page Notification
  list_paginated newest_first page size user_id w = record {
    items =
        take size
          (drop ((page - 1) * size) (newest_first (select (for_user user_id) w.notifications)));
    total = count (for_user user_id) w.notifications;
    page = page;
    size = size;
  }
