-- ===== src/Notifications/Controller.antt =====
-- app/domain/notifications/controllers/notification_controller.py.
use library_api.Prelude.{String, Option, List}
use library_api.Prelude.Int.{ℤ}
use library_api.Models.Notification.{Notification}
use library_api.Responses.{Page}
use library_api.Exec.{Exec, gets, ◌>>=◌, ◌>>◌}
use library_api.External.{External}
use library_api.World.{State}
use library_api.Security.{get_current_admin}
use library_api.Pagination.{page_query}
use library_api.Notifications
use library_api.Notifications.Job

module _ ⦃ext : External⦄ where
  unfoldable pub list_notifications :
      (List Notification → List Notification)
      → ext.Token
      → ℤ
      → ℤ
      → Option String
      → Exec State (Page Notification)
  unfolding Notifications.list_paginated
  list_notifications newest_first token page size user_id = do
    get_current_admin token
    query ← page_query page size
    gets (Notifications.list_paginated newest_first query.0 query.1 user_id)

  abbrev pub run_due_loans_job : ext.Token → Exec State (Unit {0})
  run_due_loans_job token = get_current_admin token >> Job.execute
