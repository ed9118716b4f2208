-- ===== src/Reservations/Service.antt =====
-- app/domain/reservation/services: `ReservationService`.
use library_api.Prelude.{
  ℕ, ◌+◌, String, true, false, Option, none, some, List, is_some, if◌then◌else◌,
}
use library_api.Prelude.Int.{pos, ltb_ℤ}
use library_api.Datetime.{Datetime}
use library_api.Errors.{business_rule, not_found}
use library_api.Models.Reservation.{Reservation, ReservationStatus, status_eq}
use library_api.Responses.{Page, CancelReservationResponse}
use library_api.Events.{DomainEvent, ReservationEvent}
use library_api.EventBus.{EventBus, publish}
use library_api.Exec.{Exec, pure, raise_if, run, gets, modify, or_raise, ◌>>=◌, ◌>>◌}
use library_api.External.{External}
use library_api.World.{State, Metrics, utcnow, new_id}
use library_api.Books.Repository as Books
use library_api.Loans.Queries.{find_user}
use library_api.Reservations.Repository

pub record CreateReservation : Type 0 where
  pub book_id : String

module _ ⦃ext : External⦄ where
  abbrev count_metric : (Metrics → Metrics) → State → State
  count_metric f w = record w { metrics = f w.metrics }

  abbrev reservation_event : Datetime → Reservation → ReservationEvent
  reservation_event occurred_at r = record {
    occurred_at = occurred_at;
    reservation_id = r.id;
    user_id = r.user_id;
    book_id = r.book_id;
  }

  unfoldable pub create_reservation : EventBus → CreateReservation → String → Exec State Reservation
  unfolding publish
  create_reservation event_bus input user_id = do
    user ← gets (find_user user_id)
    or_raise user (not_found "Usuário não encontrado")
    found ← gets (Books.find_by_id input.book_id)
    listed ← or_raise found (not_found "Livro não encontrado")
    raise_if (ltb_ℤ (pos 0) listed.book.available_copies)
        (business_rule "O livro está disponível e não precisa de reserva")
    existing_reservation ← Repository.find_active_by_user_and_book user_id input.book_id
    raise_if (is_some existing_reservation)
        (business_rule "O usuário já possui uma reserva ativa para este livro")
    reservation_id ← run new_id
    created_at ← run utcnow
    let created : Reservation = record {
      id = reservation_id;
      user_id = user_id;
      book_id = input.book_id;
      status = ReservationStatus.active;
      created_at = created_at;
      cancelled_at = none;
      fulfilled_at = none;
    }
    modify (Repository.create created)
    occurred_at ← run utcnow
    publish event_bus (DomainEvent.reservation_created (reservation_event occurred_at created))
    modify (
        count_metric
          λ m. record m { reservations_created_total = m.reservations_created_total + 1 })
    pure created

  unfoldable pub cancel_reservation : EventBus → String → Exec State CancelReservationResponse
  unfolding publish
  cancel_reservation event_bus reservation_id = do
    found ← gets (Repository.find_by_id reservation_id)
    reservation ← or_raise found (not_found "Reserva não encontrada")
    raise_if (if status_eq reservation.status ReservationStatus.active then false else true)
        (business_rule "Apenas reservas ativas podem ser canceladas")
    now ← run utcnow
    let updated : Reservation = record reservation {
      status = ReservationStatus.cancelled;
      cancelled_at = some now;
    }
    modify (Repository.update updated)
    occurred_at ← run utcnow
    publish event_bus (DomainEvent.reservation_cancelled (reservation_event occurred_at updated))
    modify (
        count_metric
          λ m. record m { reservations_cancelled_total = m.reservations_cancelled_total + 1 })
    pure (record { id = updated.id; status = updated.status; cancelled_at = updated.cancelled_at })

  unfoldable pub list_paginated :
      (List Reservation → List Reservation)
      → ℕ
      → ℕ
      → Option String
      → Option String
      → Option ReservationStatus
      → State
      → Page Reservation
  unfolding Repository.list_paginated
  list_paginated oldest_first page size user_id book_id status w =
      let (reservations, total) =
        Repository.list_paginated oldest_first page size user_id book_id status w in
      record { items = reservations; total = total; page = page; size = size }

  unfoldable pub get_reservation : String → Exec State Reservation
  get_reservation reservation_id = do
    found ← gets (Repository.find_by_id reservation_id)
    or_raise found (not_found "Reserva não encontrada")
