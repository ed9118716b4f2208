-- ===== src/Web/Gate.antt =====
-- The endpoints for administrators, and what a request gets there that has no administrator's token.
use library_api.Prelude.{◌≡◌, ◌⊎◌, inl, inr, Bool, true, false}
use library_api.Errors.{DomainException, domain}
use library_api.Models.User.{User}
use library_api.Exec.{Exec, Result, err, pure, gets, ◌>>=◌, ◌>>◌}
use library_api.External.{External}
use library_api.World.{State}
use library_api.EventBus.{service_bus}
use library_api.Users.Service.{TokenResponse}
use library_api.Users.Service as Users
use library_api.Authors.Service as Authors
use library_api.Books.Service as Books
use library_api.Loans.Service as Loans
use library_api.Loans.Queries
use library_api.Notifications
use library_api.Notifications.Job
use library_api.Reports.Service as Reports
use library_api.Security.{is_admin, get_current_admin}
use library_api.Pagination.{page_query}
use library_api.Users.Controller as UserController
use library_api.Loans.Controller as LoanController
use library_api.Notifications.Controller as NotificationController
use library_api.Web.{Endpoint, Orders, answer, reply_with}
use library_api.Effects.{bind-err}
use library_api.Web.Callers.{
  IsDenial, denied, admitted, get_current_admin-IdentifiedAdmin, tick, IsCaller,
}

abbrev pub admin_only : Endpoint → Bool
admin_only (Endpoint.list_users _ _) = true
admin_only (Endpoint.get_user _) = true
admin_only (Endpoint.update_user _ _) = true
admin_only (Endpoint.delete_user _) = true
admin_only (Endpoint.update_user_role _ _) = true
admin_only (Endpoint.create_author _) = true
admin_only (Endpoint.update_author _ _) = true
admin_only (Endpoint.delete_author _) = true
admin_only (Endpoint.create_book _) = true
admin_only (Endpoint.update_book _ _) = true
admin_only (Endpoint.delete_book _) = true
admin_only (Endpoint.list_loans _ _ _ _ _ _) = true
admin_only (Endpoint.update_loan _ _) = true
admin_only (Endpoint.create_loan _) = true
admin_only (Endpoint.list_active_loans _ _) = true
admin_only (Endpoint.list_overdue_loans _ _) = true
admin_only (Endpoint.list_notifications _ _ _) = true
admin_only Endpoint.run_due_loans_job = true
admin_only (Endpoint.get_stats _ _) = true
admin_only (Endpoint.export_loans_csv _ _ _ _ _) = true
admin_only (Endpoint.export_fines_pdf _ _ _ _ _) = true
admin_only _ = false

module _ ⦃ext : External⦄ where
  -- The caller is an administrator, or is told that he is not, with 401 or 404, and only the clock
  -- was read.
  abbrev pub Gate : {A : Type 0} → ext.Token → State → Result A × State → Type 0
  Gate token w x =
      ((user : User) × IsCaller token w user × (is_admin user ≡ true))
      ⊎ ((e : DomainException) × IsDenial e × (x ≡ (err (domain e), tick w)))

  gate :
      {A B : Type 0} (token : ext.Token) (m : Exec State A) (f : A → B) (w : State)
      → Gate token w (reply_with (get_current_admin token >> m) f w)
  gate token m f w = elim (get_current_admin-IdentifiedAdmin token w) [
    | denied e denial h ↦ inr (
      e,
      denial,
      bind-err (get_current_admin token >> m) (λ a. pure (f a))
          (bind-err (get_current_admin token) (λ _. m) h),
    )
    | admitted user who admin h ↦ inl (user, who, admin)
  ]

  -- An endpoint for administrators does nothing for a request whose token is not a valid one of an
  -- active administrator: the answer is an error with the status 401 or 404, and the state is as
  -- it was but for a reading of the clock.
  pub answer-Gate :
      (orders : Orders) (token : ext.Token) (e : Endpoint) (w : State)
      → admin_only e ≡ true
      → Gate token w (answer orders token e w)
  unfolding answer UserController.list_users LoanController.list_loans
      LoanController.list_active_loans LoanController.list_overdue_loans
      NotificationController.list_notifications Queries.list_active_paginated
      Queries.list_overdue_paginated
  answer-Gate orders t (Endpoint.list_users page size) w h =
      gate t (page_query page size >>= λ query. gets (Users.list_users_paginated query.0 query.1)) _
        w
  answer-Gate orders t (Endpoint.get_user user_id) w h = gate t (Users.get_by_id user_id) _ w
  answer-Gate orders t (Endpoint.update_user user_id input) w h =
      gate t (Users.update_user user_id input) _ w
  answer-Gate orders t (Endpoint.delete_user user_id) w h = gate t (Users.delete_user user_id) _ w
  answer-Gate orders t (Endpoint.update_user_role user_id input) w h =
      gate t (Users.update_role user_id input) _ w
  answer-Gate orders t (Endpoint.create_author input) w h = gate t (Authors.create_author input) _ w
  answer-Gate orders t (Endpoint.update_author author_id input) w h =
      gate t (Authors.update_author author_id input) _ w
  answer-Gate orders t (Endpoint.delete_author author_id) w h =
      gate t (Authors.delete_author author_id) _ w
  answer-Gate orders t (Endpoint.create_book input) w h = gate t (Books.create_book input) _ w
  answer-Gate orders t (Endpoint.update_book book_id input) w h =
      gate t (Books.update_book book_id input) _ w
  answer-Gate orders t (Endpoint.delete_book book_id) w h = gate t (Books.delete_book book_id) _ w
  answer-Gate orders t (Endpoint.list_loans page size user_id book_id status overdue) w h =
      gate t
        (page_query page size >>= λ query.
          Queries.list_paginated query.0 query.1 user_id book_id status overdue)
        _ w
  answer-Gate orders t (Endpoint.update_loan loan_id input) w h =
      gate t (Loans.update_loan loan_id input) _ w
  answer-Gate orders t (Endpoint.create_loan input) w h =
      gate t (Loans.create_loan service_bus input) _ w
  answer-Gate orders t (Endpoint.list_active_loans page size) w h =
      gate t (page_query page size >>= λ query. Queries.list_active_paginated query.0 query.1) _ w
  answer-Gate orders t (Endpoint.list_overdue_loans page size) w h =
      gate t (page_query page size >>= λ query. Queries.list_overdue_paginated query.0 query.1) _ w
  answer-Gate orders t (Endpoint.list_notifications page size user_id) w h =
      gate t
        (page_query page size >>= λ query.
          gets (Notifications.list_paginated orders.notifications query.0 query.1 user_id))
        _ w
  answer-Gate orders t Endpoint.run_due_loans_job w h = gate t (Job.execute) _ w
  answer-Gate orders t (Endpoint.get_stats start_date end_date) w h =
      gate t (gets (Reports.get_stats start_date end_date)) _ w
  answer-Gate orders t (Endpoint.export_loans_csv status user_id book_id start_date end_date) w h =
      gate t (gets (Reports.generate_loans_csv status user_id book_id start_date end_date)) _ w
  answer-Gate orders t (Endpoint.export_fines_pdf user_id book_id min_amount start_date end_date) w
        h =
      gate t (gets (Reports.generate_fines_pdf user_id book_id min_amount start_date end_date)) _ w
  answer-Gate orders t (Endpoint.create_user _) w h = cc
  answer-Gate orders t (Endpoint.login _) w h = cc
  answer-Gate orders t Endpoint.me w h = cc
  answer-Gate orders t (Endpoint.list_authors _ _) w h = cc
  answer-Gate orders t (Endpoint.get_author _) w h = cc
  answer-Gate orders t (Endpoint.list_books _ _ _ _ _ _) w h = cc
  answer-Gate orders t (Endpoint.get_book _) w h = cc
  answer-Gate orders t (Endpoint.list_loans_by_user _ _ _ _) w h = cc
  answer-Gate orders t (Endpoint.cancel_loan _) w h = cc
  answer-Gate orders t (Endpoint.pay_loan_fine _) w h = cc
  answer-Gate orders t (Endpoint.get_loan _) w h = cc
  answer-Gate orders t (Endpoint.return_loan _) w h = cc
  answer-Gate orders t (Endpoint.renew_loan _) w h = cc
  answer-Gate orders t (Endpoint.create_reservation _) w h = cc
  answer-Gate orders t (Endpoint.list_reservations _ _ _ _ _) w h = cc
  answer-Gate orders t (Endpoint.get_reservation _) w h = cc
  answer-Gate orders t (Endpoint.cancel_reservation _) w h = cc
