-- ===== src/Reservations/Controller.antt =====
-- app/domain/reservation/controllers/reservation_controller.py.
use library_api.Prelude.{String, Bool, true, false, Option, none, some, List, ◌==◌, if◌then◌else◌}
use library_api.Prelude.Int.{ℤ}
use library_api.Errors.{unauthorized}
use library_api.Models.User.{User}
use library_api.Models.Reservation.{Reservation, ReservationStatus}
use library_api.Responses.{Page, CancelReservationResponse}
use library_api.EventBus.{service_bus}
use library_api.Exec.{Exec, pure, raise_if, gets, ◌>>=◌, ◌>>◌}
use library_api.External.{External}
use library_api.World.{State}
use library_api.Security.{is_admin, get_current_user}
use library_api.Pagination.{page_query}
use library_api.Reservations.Service.{CreateReservation}
use library_api.Reservations.Service as Reservations

-- Somebody else's, and the user is no administrator.
abbrev pub is_foreign : User → String → Bool
is_foreign user user_id =
    if is_admin user then false else if user_id == user.id then false else true

abbrev pub asks_foreign : User → Option String → Bool
asks_foreign user none = false
asks_foreign user (some user_id) = is_foreign user user_id

-- `if user.role != UserRole.ADMIN.value: user_id = str(user.id)`
abbrev pub visible_user_id : User → Option String → Option String
visible_user_id user user_id = if is_admin user then user_id else some user.id

module _ ⦃ext : External⦄ where
  abbrev pub create_reservation : ext.Token → CreateReservation → Exec State Reservation
  create_reservation token input = do
    user ← get_current_user token
    Reservations.create_reservation service_bus input user.id

  unfoldable pub list_reservations :
      (List Reservation → List Reservation)
      → ext.Token
      → ℤ
      → ℤ
      → Option String
      → Option String
      → Option ReservationStatus
      → Exec State (Page Reservation)
  unfolding Reservations.list_paginated get_current_user
  list_reservations oldest_first token page size user_id book_id status = do
    user ← get_current_user token
    query ← page_query page size
    raise_if (asks_foreign user user_id) (unauthorized "Você só pode listar suas reservas")
    gets (
        Reservations.list_paginated oldest_first query.0 query.1 (visible_user_id user user_id)
          book_id status)

  -- How the endpoints for one reservation begin.
  unfoldable pub own_reservation : String → ext.Token → String → Exec State Reservation
  unfolding Reservations.get_reservation get_current_user
  own_reservation message token reservation_id = do
    user ← get_current_user token
    reservation ← Reservations.get_reservation reservation_id
    raise_if (is_foreign user reservation.user_id) (unauthorized message)
    pure reservation

  abbrev pub get_reservation : ext.Token → String → Exec State Reservation
  get_reservation token reservation_id =
      own_reservation "Você só pode listar suas reservas" token reservation_id

  abbrev pub cancel_reservation : ext.Token → String → Exec State CancelReservationResponse
  cancel_reservation token reservation_id =
      own_reservation "Você só pode cancelar suas reservas" token reservation_id
      >> Reservations.cancel_reservation service_bus reservation_id
