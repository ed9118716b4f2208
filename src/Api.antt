-- ===== src/Api.antt =====
-- The requests that write, as one type, and what serving them does to the state. Each service is
-- wired as its controller's `get_..._service` does it; an exception ends only its own request.
use library_api.Prelude.{String, List, [], ◌∷◌}
use library_api.EventBus.{service_bus}
use library_api.External.{External}
use library_api.World.{State}
use library_api.Users.Service as Users
use library_api.Authors.Service as Authors
use library_api.Books.Service as Books
use library_api.Loans.Service as Loans
use library_api.Reservations.Service as Reservations
use library_api.Notifications.Job as Job

pub data Request : Type 0 where
  create_user : Users.CreateUser → Request
  update_user : String → Users.UpdateUser → Request
  update_role : String → Users.UpdateUserRole → Request
  delete_user : String → Request
  create_author : Authors.CreateAuthor → Request
  update_author : String → Authors.UpdateAuthor → Request
  delete_author : String → Request
  create_book : Books.CreateBook → Request
  update_book : String → Books.UpdateBook → Request
  delete_book : String → Request
  create_loan : Loans.CreateLoan → Request
  return_loan : String → Request
  pay_fine : String → Request
  update_loan : String → Loans.UpdateLoan → Request
  cancel_loan : String → Request
  renew_loan : String → Request
  create_reservation : Reservations.CreateReservation → String → Request
  cancel_reservation : String → Request
  run_due_loans_job : Request

module _ ⦃ext : External⦄ where
  unfoldable pub serve : Request → State → State
  unfolding service_bus
  serve (create_user input) w = (Users.create_user input w).1
  serve (update_user user_id input) w = (Users.update_user user_id input w).1
  serve (update_role user_id input) w = (Users.update_role user_id input w).1
  serve (delete_user user_id) w = (Users.delete_user user_id w).1
  serve (create_author input) w = (Authors.create_author input w).1
  serve (update_author author_id input) w = (Authors.update_author author_id input w).1
  serve (delete_author author_id) w = (Authors.delete_author author_id w).1
  serve (create_book input) w = (Books.create_book input w).1
  serve (update_book book_id input) w = (Books.update_book book_id input w).1
  serve (delete_book book_id) w = (Books.delete_book book_id w).1
  serve (create_loan input) w = (Loans.create_loan service_bus input w).1
  serve (return_loan loan_id) w = (Loans.return_loan service_bus loan_id w).1
  serve (pay_fine loan_id) w = (Loans.pay_fine loan_id w).1
  serve (update_loan loan_id input) w = (Loans.update_loan loan_id input w).1
  serve (cancel_loan loan_id) w = (Loans.cancel_loan service_bus loan_id w).1
  serve (renew_loan loan_id) w = (Loans.renew_loan loan_id w).1
  serve (create_reservation input user_id) w =
      (Reservations.create_reservation service_bus input user_id w).1
  serve (cancel_reservation reservation_id) w =
      (Reservations.cancel_reservation service_bus reservation_id w).1
  serve run_due_loans_job w = (Job.execute w).1

  unfoldable pub serve_all : List Request → State → State
  unfolding serve
  serve_all [] w = w
  serve_all (r ∷ rs) w = serve_all rs (serve r w)
