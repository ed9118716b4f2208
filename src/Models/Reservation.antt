-- ===== src/Models/Reservation.antt =====
-- app/domain/reservation: `ReservationModel` and `ReservationStatus`.
use library_api.Prelude.{String, Bool, true, false, Option}
use library_api.Datetime.{Datetime}
use library_api.Table.{Row}

pub data ReservationStatus : Type 0 where
  active cancelled fulfilled : ReservationStatus

abbrev pub status_eq : ReservationStatus → ReservationStatus → Bool
status_eq ReservationStatus.active ReservationStatus.active = true
status_eq ReservationStatus.cancelled ReservationStatus.cancelled = true
status_eq ReservationStatus.fulfilled ReservationStatus.fulfilled = true
status_eq _ _ = false

pub record Reservation : Type 0 where
  pub id : String
  pub user_id : String
  pub book_id : String
  pub status : ReservationStatus
  pub created_at : Datetime
  pub cancelled_at : Option Datetime
  pub fulfilled_at : Option Datetime

instance abbrev pub reservation_row : Row Reservation
reservation_row = record { id_of = λ r. r.id }
