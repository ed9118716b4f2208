-- ===== src/Tests/WebWitnesses.antt =====
-- The theorems on the requests over HTTP at concrete inputs.
use library_api.Prelude.{
  List, ◌≡◌, ◌≢◌, ◌≤◌, ◌+◌, refl, some, none, [], ◌∷◌, String, arith, count, true, ◌⊎◌,
}
use library_api.Prelude.Int.{pos}
use library_api.Datetime.{days}
use library_api.Errors.{domain, unauthorized, exception_handler}
use library_api.Models.User.{User, UserRole, user_row}
use library_api.Models.Reservation.{Reservation}
use library_api.Responses.{Page, Document}
use library_api.Exec.{ok, err}
use library_api.World.{World}
use library_api.System.{
  Request, HttpResponse, problem, handle, route, with_request_id, with_logging, respond,
}
use library_api.System.RequestIds.{handle_all, request_id, request_id-handle_all}
use library_api.Security.{get_current_user, get_current_admin, is_admin}
use library_api.Reservations.Repository.{is_active_of}
use library_api.Reservations.Controller.{list_reservations}
use library_api.Table.{find_by_key}
use library_api.Cache.{cached, read_through}
use library_api.Loans.Queries
use library_api.Loans.Controller.{own_loan, get_loan}
use library_api.Web.{Endpoint, Orders, answer}
use library_api.Web.Callers.{IsCaller, tick}
use library_api.Web.Access.{Course, Borrows}
use library_api.Web.Answers.{answer-Course}
use library_api.Web.Gate.{Gate, answer-Gate}
use library_api.Web.Privileges.{Unprivileged, answer-Unprivileged}
use library_api.Web.Views.{get_loan-Borrows}
use library_api.Web.Visits.{answer_all, answer_all-Keeps, answer_all-single}
use library_api.Models.Book.{book_row}
use library_api.Inventory.{shelf}
use library_api.Inventory.Accounts.{Keeps}
use library_api.Inventory.Stock.{IsBalanced}
use library_api.Inventory.Limits.{IsLimited}
use library_api.Web.Shelves.{AllNew, answer_all-IsBalanced, answer_all-IsLimited}
use library_api.Tests.InventoryWitnesses.{quincas, world-IsBalanced, world-IsLimited}
use library_api.Tests.Redis.{Store}
use library_api.Tests.Fixture.{local, world, tables, ana, noon, uuid_injective}
use library_api.Tests.Worlds.{borrow, cached_world, cached_loan, reserved_world}

abbrev bia : User
bia = record ana { id = "bia"; email = "bia@example.com"; role = UserRole.admin }

abbrev staffed : World Store
staffed = record world { db = record tables { users = ana ∷ bia ∷ [] } }

abbrev token_of : String → local.Token
token_of user_id = some (record { sub = user_id; exp = noon + days 1; role = "USER" })

abbrev as_stored : Orders
as_stored = record {
  authors = λ rows. rows;
  reservations = λ rows. rows;
  notifications = λ rows. rows;
}

answer-Course_example :
    Course
      (token_of "bia")
      (Endpoint.create_loan borrow)
      staffed
      (answer as_stored (token_of "bia") (Endpoint.create_loan borrow) staffed).1
answer-Course_example =
    answer-Course as_stored (token_of "bia") (Endpoint.create_loan borrow) staffed

answer-Gate_example :
    Gate
      (token_of "ana")
      staffed
      (answer as_stored (token_of "ana") (Endpoint.delete_user "bia") staffed)
answer-Gate_example =
    answer-Gate as_stored (token_of "ana") (Endpoint.delete_user "bia") staffed refl

ana_is_no_admin :
    (get_current_admin (token_of "ana") staffed).0
    ≡ err (domain (unauthorized "Acesso de administrador obrigatório"))
unfolding get_current_admin find_by_key
ana_is_no_admin = refl

answer-Unprivileged_example :
    Unprivileged staffed.users
      (answer as_stored (token_of "ana") (Endpoint.delete_user "bia") staffed).1.users
answer-Unprivileged_example =
    answer-Unprivileged as_stored (token_of "ana") (Endpoint.delete_user "bia") staffed
      (unauthorized "Acesso de administrador obrigatório") ana_is_no_admin

ana_sees : (get_loan (token_of "ana") "fresh" cached_world).0 ≡ ok cached_loan
unfolding own_loan Queries.get_loan read_through cached find_by_key
ana_sees = refl

get_loan-Borrows_example :
    (user : User) × IsCaller (token_of "ana") cached_world user
    × ((is_admin user ≡ true)
        ⊎ ((b : Borrows user "fresh" (tick cached_world)) × (cached_loan ≡ Document.loan b.loan)))
get_loan-Borrows_example =
    get_loan-Borrows (token_of "ana") "fresh" cached_world cached_loan ana_sees

abbrev no_reservations : Page Reservation
no_reservations = record { items = []; total = 0; page = 1; size = 10 }

ana_is_known : get_current_user (token_of "ana") reserved_world ≡ (ok ana, tick reserved_world)
unfolding get_current_user find_by_key
ana_is_known = refl

ana_lists :
    (list_reservations
      (λ rows. rows)
      (token_of "ana")
      (pos 1)
      (pos 10)
      none
      none
      none
      reserved_world).0
    ≡ ok no_reservations
unfolding list_reservations find_by_key
ana_lists = refl

ana_stays : find_by_key ana.id staffed.users ≡ some ana
unfolding find_by_key
ana_stays = refl

answer_all-Keeps_example :
    Keeps ana
      (answer_all as_stored ((token_of "bia", Endpoint.delete_user "ana") ∷ []) staffed).users
answer_all-Keeps_example =
    answer_all-Keeps as_stored ((token_of "bia", Endpoint.delete_user "ana") ∷ []) staffed ana
      ana_stays

answer_all-single_example :
    count
      (is_active_of "bia" "casmurro")
      (answer_all as_stored
        ((token_of "ana", Endpoint.cancel_reservation "queue") ∷ [])
        reserved_world).reservations
    ≤ 1
answer_all-single_example =
    answer_all-single as_stored ((token_of "ana", Endpoint.cancel_reservation "queue") ∷ [])
      reserved_world "bia" "casmurro" (ground arith)

-- Bia registers a book and lends one to Ana, who pays what she owes and returns what she had.
abbrev visits : List (local.Token × Endpoint)
visits =
    (token_of "bia", Endpoint.create_book quincas)
    ∷ (token_of "bia", Endpoint.create_loan borrow)
    ∷ (token_of "ana", Endpoint.pay_loan_fine "late")
    ∷ (token_of "ana", Endpoint.return_loan "late")
    ∷ []

visits-AllNew : AllNew as_stored visits staffed
unfolding find_by_key
visits-AllNew = ((refl, ground arith), (tt, (tt, (tt, tt))))

answer_all-IsBalanced_example : IsBalanced (shelf (answer_all as_stored visits staffed))
answer_all-IsBalanced_example =
    answer_all-IsBalanced as_stored visits staffed visits-AllNew world-IsBalanced

answer_all-IsLimited_example : IsLimited (shelf (answer_all as_stored visits staffed))
answer_all-IsLimited_example =
    answer_all-IsLimited as_stored visits staffed visits-AllNew world-IsLimited

-- A request without a token of ours.
abbrev stranger : Request local.Token
stranger = record { method = "GET"; path = "/users/me"; token = none; endpoint = Endpoint.me }

abbrev rejection : String → HttpResponse
rejection id = record {
  status_code = 401;
  headers = ("X-Request-ID", id) ∷ [];
  content = problem (exception_handler (unauthorized "Token inválido"));
}

first_rejection : (handle as_stored stranger (staffed, [])).0 ≡ ok (rejection "id")
unfolding handle route with_request_id with_logging answer get_current_user respond
    exception_handler
first_rejection = refl

third_rejection :
    (handle as_stored stranger
      (handle_all as_stored (stranger ∷ []) (handle as_stored stranger (staffed, [])).1)).0
    ≡ ok (rejection "id||")
unfolding handle handle_all route with_request_id with_logging answer get_current_user respond
    exception_handler
third_rejection = refl

request_id-handle_all_example :
    (id : String) × (request_id (rejection "id") ≡ some id)
    × (request_id (rejection "id||") ≢ some id)
request_id-handle_all_example =
    request_id-handle_all as_stored stranger stranger (stranger ∷ []) (staffed, []) (rejection "id")
      (rejection "id||") uuid_injective first_rejection third_rejection
