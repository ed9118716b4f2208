-- ===== src/Web/Answers.antt =====
-- Every request over HTTP only reads, or does what one request that writes does and is allowed to.
use mathlib.Core.Path.{subst}
use library_api.Prelude.{refl, sym, inl, inr, true, none, some}
use library_api.Models.Loan.{LoanStatus}
use library_api.Exec.{gets, ◌>>=◌}
use library_api.External.{External}
use library_api.World.{State}
use library_api.EventBus.{service_bus}
use library_api.Users.Service.{TokenResponse}
use library_api.Users.Service as Users
use library_api.Authors.Service as Authors
use library_api.Books.Service as Books
use library_api.Loans.Service as Loans
use library_api.Loans.Queries
use library_api.Reservations.Service as Reservations
use library_api.Notifications
use library_api.Notifications.Job
use library_api.Reports.Service as Reports
use library_api.Pagination.{page_query}
use library_api.Users.Controller as UserController
use library_api.Authors.Controller as AuthorController
use library_api.Books.Controller as BookController
use library_api.Loans.Controller as LoanController
use library_api.Reservations.Controller as ReservationController
use library_api.Notifications.Controller as NotificationController
use library_api.Reports.Controller as ReportController
use library_api.Api.{Request, serve}
use library_api.Api as Api
use library_api.Web.{Endpoint, Orders, answer}
use library_api.Web.Reads.{
  Reading-refl, Reading-trans, get_loan-Keeps, list_paginated-Keeps, list_books_paginated-Keeps,
  get_book-Keeps,
}
use library_api.Web.Callers.{tick, refused, accepted, get_current_user-Identified}
use library_api.Web.Access.{
  Course, reads, serves, anyone, administrator, own, course_of_reply, course_of_user,
}
use library_api.Web.Courses.{
  admin_serves, admin_reads, page_reads, own_loan_serves, by_id-Keeps, get_author-Keeps,
  login-Keeps, list_loans_by_user-Course, list_reservations-Course,
}
use library_api.Web.Owners.{course_of_own_loan, course_of_own_reservation, course_of_reservation}

module _ ⦃ext : External⦄ (orders : Orders) where
  -- A request over HTTP, with any token, to any endpoint, changes no table, or it does what the
  -- writing request does that the endpoint is for, and then its token allows that: everyone may
  -- register; the token of an active administrator allows everything; the token of any other active
  -- user allows what is his own, to return, pay, cancel or renew the loan whose document names him, to
  -- reserve for himself, and to cancel his reservation.
  pub answer-Course :
      (token : ext.Token) (e : Endpoint) (w : State) → Course token e w (answer orders token e w).1
  unfolding answer serve UserController.list_users LoanController.list_loans
      LoanController.list_loans_by_user LoanController.list_active_loans
      LoanController.list_overdue_loans AuthorController.list_authors BookController.list_books
      NotificationController.list_notifications ReservationController.list_reservations
      Queries.list_active_paginated Queries.list_overdue_paginated
  answer-Course t (Endpoint.create_user input) w =
      course_of_reply t (UserController.create_user input) _ w
        (serves w (Api.create_user input) refl (Reading-refl w) refl (anyone input))
  answer-Course t (Endpoint.list_users page size) w =
      course_of_reply t (UserController.list_users t page size) _ w (
        admin_reads t
          (page_query page size >>= λ query. gets (Users.list_users_paginated query.0 query.1)) w
          (page_reads page size (λ query. gets (Users.list_users_paginated query.0 query.1))
            (λ _. Reading-refl)))
  answer-Course t (Endpoint.login input) w =
      course_of_reply t (UserController.login input) _ w (reads (login-Keeps input w))
  answer-Course t Endpoint.me w =
      course_of_reply t (UserController.me t) _ w (elim (get_current_user-Identified t w) [
        | refused e denial h ↦
            subst (λ x. Course t Endpoint.me w x.1) (sym h)
              (reads (record { db = refl; identifiers = refl }))
        | accepted user who h ↦
            subst (λ x. Course t Endpoint.me w x.1) (sym h)
              (reads (record { db = refl; identifiers = refl }))
      ])
  answer-Course t (Endpoint.get_user user_id) w =
      course_of_reply t (UserController.get_user t user_id) _ w
        (admin_reads t (Users.get_by_id user_id) w (by_id-Keeps user_id))
  answer-Course t (Endpoint.update_user user_id input) w =
      course_of_reply t (UserController.update_user t user_id input) _ w (
        admin_serves t (Users.update_user user_id input) (Api.update_user user_id input) w refl
          (λ s. refl))
  answer-Course t (Endpoint.delete_user user_id) w =
      course_of_reply t (UserController.delete_user t user_id) _ w
        (admin_serves t (Users.delete_user user_id) (Api.delete_user user_id) w refl (λ s. refl))
  answer-Course t (Endpoint.update_user_role user_id input) w =
      course_of_reply t (UserController.update_user_role t user_id input) _ w (
        admin_serves t (Users.update_role user_id input) (Api.update_role user_id input) w refl
          (λ s. refl))
  answer-Course t (Endpoint.create_author input) w =
      course_of_reply t (AuthorController.create_author t input) _ w
        (admin_serves t (Authors.create_author input) (Api.create_author input) w refl (λ s. refl))
  answer-Course t (Endpoint.list_authors page size) w =
      course_of_reply t (AuthorController.list_authors orders.authors page size) _ w (
        reads (
          page_reads page size
            (λ query. gets (Authors.list_authors_paginated orders.authors query.0 query.1))
            (λ _. Reading-refl) w))
  answer-Course t (Endpoint.get_author author_id) w =
      course_of_reply t (AuthorController.get_author author_id) _ w
        (reads (get_author-Keeps author_id w))
  answer-Course t (Endpoint.update_author author_id input) w =
      course_of_reply t (AuthorController.update_author t author_id input) _ w (
        admin_serves t (Authors.update_author author_id input) (Api.update_author author_id input) w
          refl (λ s. refl))
  answer-Course t (Endpoint.delete_author author_id) w =
      course_of_reply t (AuthorController.delete_author t author_id) _ w (
        admin_serves t (Authors.delete_author author_id) (Api.delete_author author_id) w refl
          (λ s. refl))
  answer-Course t (Endpoint.create_book input) w =
      course_of_reply t (BookController.create_book t input) _ w
        (admin_serves t (Books.create_book input) (Api.create_book input) w refl (λ s. refl))
  answer-Course t (Endpoint.list_books page size title category written_by available) w =
      course_of_reply t (BookController.list_books page size title category written_by available) _
        w
        (reads (
          page_reads page size
            (λ query.
              Books.list_books_paginated query.0 query.1 title category written_by available)
            (λ query.
              list_books_paginated-Keeps query.0 query.1 title category written_by available)
            w))
  answer-Course t (Endpoint.get_book book_id) w =
      course_of_reply t (BookController.get_book book_id) _ w (reads (get_book-Keeps book_id w))
  answer-Course t (Endpoint.update_book book_id input) w =
      course_of_reply t (BookController.update_book t book_id input) _ w (
        admin_serves t (Books.update_book book_id input) (Api.update_book book_id input) w refl
          (λ s. refl))
  answer-Course t (Endpoint.delete_book book_id) w =
      course_of_reply t (BookController.delete_book t book_id) _ w
        (admin_serves t (Books.delete_book book_id) (Api.delete_book book_id) w refl (λ s. refl))
  answer-Course t (Endpoint.list_loans page size user_id book_id status overdue) w =
      course_of_reply t (LoanController.list_loans t page size user_id book_id status overdue) _ w (
        admin_reads t
          (page_query page size >>= λ query.
            Queries.list_paginated query.0 query.1 user_id book_id status overdue)
          w
          (page_reads page size
            (λ query. Queries.list_paginated query.0 query.1 user_id book_id status overdue)
            (λ query. list_paginated-Keeps query.0 query.1 user_id book_id status overdue)))
  answer-Course t (Endpoint.list_loans_by_user user_id page size status) w =
      course_of_reply t (LoanController.list_loans_by_user t user_id page size status) _ w
        (list_loans_by_user-Course t user_id page size status w)
  answer-Course t (Endpoint.update_loan loan_id input) w =
      course_of_reply t (LoanController.update_loan t loan_id input) _ w (
        admin_serves t (Loans.update_loan loan_id input) (Api.update_loan loan_id input) w refl
          (λ s. refl))
  answer-Course t (Endpoint.cancel_loan loan_id) w =
      course_of_reply t (LoanController.cancel_loan t loan_id) _ w (
        own_loan_serves _ t loan_id (Loans.cancel_loan service_bus loan_id)
          (Api.cancel_loan loan_id) w refl (λ s. refl) (λ user borrows. borrows))
  answer-Course t (Endpoint.pay_loan_fine loan_id) w =
      course_of_reply t (LoanController.pay_loan_fine t loan_id) _ w (
        own_loan_serves _ t loan_id (Loans.pay_fine loan_id) (Api.pay_fine loan_id) w refl
          (λ s. refl) (λ user borrows. borrows))
  answer-Course t (Endpoint.create_loan input) w =
      course_of_reply t (LoanController.create_loan t input) _ w (
        admin_serves t (Loans.create_loan service_bus input) (Api.create_loan input) w refl
          (λ s. refl))
  answer-Course t (Endpoint.list_active_loans page size) w =
      course_of_reply t (LoanController.list_active_loans t page size) _ w (
        admin_reads t
          (page_query page size >>= λ query. Queries.list_active_paginated query.0 query.1) w
          (page_reads page size (λ query. Queries.list_active_paginated query.0 query.1)
            (λ query.
              list_paginated-Keeps query.0 query.1 none none (some LoanStatus.active) none)))
  answer-Course t (Endpoint.list_overdue_loans page size) w =
      course_of_reply t (LoanController.list_overdue_loans t page size) _ w (
        admin_reads t
          (page_query page size >>= λ query. Queries.list_overdue_paginated query.0 query.1) w
          (page_reads page size (λ query. Queries.list_overdue_paginated query.0 query.1)
            (λ query. list_paginated-Keeps query.0 query.1 none none none (some true))))
  answer-Course t (Endpoint.get_loan loan_id) w =
      course_of_reply t (LoanController.get_loan t loan_id) _ w (
        course_of_own_loan _ t loan_id (Queries.get_loan loan_id) w
          λ user s before who allowed. reads (Reading-trans before (get_loan-Keeps loan_id s)))
  answer-Course t (Endpoint.return_loan loan_id) w =
      course_of_reply t (LoanController.return_loan t loan_id) _ w (
        own_loan_serves _ t loan_id (Loans.return_loan service_bus loan_id)
          (Api.return_loan loan_id) w refl (λ s. refl) (λ user borrows. borrows))
  answer-Course t (Endpoint.renew_loan loan_id) w =
      course_of_reply t (LoanController.renew_loan t loan_id) _ w (
        own_loan_serves _ t loan_id (Loans.renew_loan loan_id) (Api.renew_loan loan_id) w refl
          (λ s. refl) (λ user borrows. borrows))
  answer-Course t (Endpoint.list_notifications page size user_id) w =
      course_of_reply t
        (NotificationController.list_notifications orders.notifications t page size user_id) _ w
        (admin_reads t
          (page_query page size >>= λ query.
            gets (Notifications.list_paginated orders.notifications query.0 query.1 user_id))
          w
          (page_reads page size
            (λ query.
              gets (Notifications.list_paginated orders.notifications query.0 query.1 user_id))
            (λ _. Reading-refl)))
  answer-Course t Endpoint.run_due_loans_job w =
      course_of_reply t (NotificationController.run_due_loans_job t) _ w
        (admin_serves t (Job.execute) (Api.run_due_loans_job) w refl (λ s. refl))
  answer-Course t (Endpoint.create_reservation input) w =
      course_of_reply t (ReservationController.create_reservation t input) _ w (
        course_of_user t (λ user. Reservations.create_reservation service_bus input user.id) w
          λ user who.
            serves (tick w) (Api.create_reservation input user.id) (user.id, refl)
              (record { db = refl; identifiers = refl }) refl (own user who refl))
  answer-Course t (Endpoint.list_reservations page size user_id book_id status) w =
      course_of_reply t
        (ReservationController.list_reservations orders.reservations t page size user_id book_id
          status)
        _ w (list_reservations-Course orders.reservations t page size user_id book_id status w)
  answer-Course t (Endpoint.get_reservation reservation_id) w =
      course_of_reply t (ReservationController.get_reservation t reservation_id) _ w
        (course_of_reservation t reservation_id w)
  answer-Course t (Endpoint.cancel_reservation reservation_id) w =
      course_of_reply t (ReservationController.cancel_reservation t reservation_id) _ w (
        course_of_own_reservation _ t reservation_id
          (λ _. Reservations.cancel_reservation service_bus reservation_id) w
          λ user r who allowed.
            serves (tick w) (Api.cancel_reservation reservation_id) refl
              (record { db = refl; identifiers = refl }) refl
              (elim allowed [
                | inl admin ↦ administrator user who admin
                | inr reserves ↦ own user who reserves
              ]))
  answer-Course t (Endpoint.get_stats start_date end_date) w =
      course_of_reply t (ReportController.get_stats t start_date end_date) _ w
        (admin_reads t (gets (Reports.get_stats start_date end_date)) w (Reading-refl))
  answer-Course t (Endpoint.export_loans_csv status user_id book_id start_date end_date) w =
      course_of_reply t
        (ReportController.export_loans_csv t status user_id book_id start_date end_date) _ w
        (admin_reads t
          (gets (Reports.generate_loans_csv status user_id book_id start_date end_date)) w
          (Reading-refl))
  answer-Course t (Endpoint.export_fines_pdf user_id book_id min_amount start_date end_date) w =
      course_of_reply t
        (ReportController.export_fines_pdf t user_id book_id min_amount start_date end_date) _ w
        (admin_reads t
          (gets (Reports.generate_fines_pdf user_id book_id min_amount start_date end_date)) w
          (Reading-refl))
