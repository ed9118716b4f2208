-- ===== src/Reservations/Repository.antt =====
-- app/domain/reservation/repositories: `ReservationRepository`.
use library_api.Prelude.{
  ℕ, ◌*◌, ◌-◌, String, Bool, true, ◌&&◌, Option, none, some, List, ◌==◌, is_some, select, count,
  take, drop,
}
use library_api.Models.Reservation.{Reservation, ReservationStatus, status_eq, reservation_row}
use library_api.Table.{insert, find_by_key, save, scalar_one_or_none}
use library_api.Exec.{Exec, pure, gets, scalar, ◌>>=◌}
use library_api.External.{External}
use library_api.World.{State, with_reservations}
use library_api.Loans.Repository.{text_filter}

abbrev pub is_active : Reservation → Bool
is_active r = status_eq r.status ReservationStatus.active

abbrev pub is_active_of : String → String → Reservation → Bool
is_active_of user_id book_id r = r.user_id == user_id && (r.book_id == book_id && is_active r)

abbrev pub is_active_for_book : String → Reservation → Bool
is_active_for_book book_id r = r.book_id == book_id && is_active r

abbrev pub status_filter : Option ReservationStatus → ReservationStatus → Bool
status_filter none t = true
status_filter (some s) t = status_eq t s

unfoldable pub passes :
    Option String → Option String → Option ReservationStatus → Reservation → Bool
passes user_id book_id status r =
    text_filter user_id r.user_id
    && (text_filter book_id r.book_id && status_filter status r.status)

module _ ⦃ext : External⦄ where
  abbrev pub create : Reservation → State → State
  create reservation w = with_reservations w (insert reservation w.reservations)

  abbrev pub find_by_id : String → State → Option Reservation
  find_by_id reservation_id w = find_by_key reservation_id w.reservations

  abbrev pub find_active_by_user_and_book : String → String → Exec State (Option Reservation)
  find_active_by_user_and_book user_id book_id = do
    rows ← gets (λ w. select (is_active_of user_id book_id) w.reservations)
    scalar (scalar_one_or_none rows)

  -- `.limit(1)`
  abbrev pub exists_active_for_book : String → Exec State Bool
  exists_active_for_book book_id = do
    rows ← gets (λ w. take 1 (select (is_active_for_book book_id) w.reservations))
    found ← scalar (scalar_one_or_none rows)
    pure (is_some found)

  -- `ORDER BY created_at` is the database's: the rows as it puts them in that order.
  unfoldable pub list_paginated :
      (List Reservation → List Reservation)
      → ℕ
      → ℕ
      → Option String
      → Option String
      → Option ReservationStatus
      → State
      → List Reservation × ℕ
  unfolding passes
  list_paginated oldest_first page size user_id book_id status w =
      let p = passes user_id book_id status in
      (
        take size (drop ((page - 1) * size) (oldest_first (select p w.reservations))),
        count p w.reservations,
      )

  abbrev pub update : Reservation → State → State
  update reservation w = with_reservations w (save reservation w.reservations)
