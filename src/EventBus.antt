-- ===== src/EventBus.antt =====
-- app/events/bus.py, the handlers of app/events/*/handlers and app/events/registrar_handlers.py.
pub mod Delivery
pub mod Laws
use library_api.Prelude.{
  String, Bool, false, ◌&&◌, ◌||◌, none, some, List, [], ◌∷◌, ◌++◌, map, if◌then◌else◌,
}
use library_api.Events.{
  DomainEvent, EventType, Handler, LoanEvent, ReservationEvent, type_of, event_type_eq, handler_eq,
  loan_created_notification, loan_returned_notification, loan_cancelled_notification,
  reservation_created_notification, reservation_cancelled_notification,
}
use library_api.Errors.{attribute_error}
use library_api.Models.Notification.{NotificationType}
use library_api.Exec.{Exec, pure, raise, run, ◌>>=◌, ◌>>◌}
use library_api.External.{External}
use library_api.World.{State}
use library_api.Notifications.{send_notification}

-- `_handlers`: a dictionary from the class of an event to its handlers, in order of insertion. A
-- missing key reads as the empty list.
abbrev pub EventBus : Type 0
EventBus = List (EventType × List Handler)

abbrev pub new_bus : EventBus
new_bus = []

abbrev pub handlers_of : EventType → EventBus → List Handler
handlers_of t [] = []
handlers_of t ((s, hs) ∷ bus) = if event_type_eq s t then hs else handlers_of t bus

abbrev pub has_class : Handler → List Handler → Bool
has_class h [] = false
has_class h (g ∷ hs) = handler_eq g h || has_class h hs

-- Is the pair of an event type and a handler class among the keys of the registered handlers?
abbrev pub has_key : EventType → Handler → EventBus → Bool
has_key t h [] = false
has_key t h ((s, hs) ∷ bus) = (event_type_eq s t && has_class h hs) || has_key t h bus

-- `self._handlers[event_type].append(handler)`
abbrev pub append_handler : EventType → Handler → EventBus → EventBus
append_handler t h [] = (t, h ∷ []) ∷ []
append_handler t h ((s, hs) ∷ bus) =
    if event_type_eq s t then (s, hs ++ h ∷ []) ∷ bus else (s, hs) ∷ append_handler t h bus

unfoldable pub subscribe : EventType → Handler → EventBus → EventBus
subscribe t h bus = if has_key t h bus then bus else append_handler t h bus

unfoldable pub register_event_handlers : EventBus → EventBus
unfolding subscribe
register_event_handlers bus =
    subscribe EventType.reservation_cancelled reservation_cancelled_notification (
      subscribe EventType.reservation_created reservation_created_notification (
        subscribe EventType.loan_cancelled loan_cancelled_notification (
          subscribe EventType.loan_returned loan_returned_notification
            (subscribe EventType.loan_created loan_created_notification bus))))

-- The bus that `get_loan_service` and `get_reservation_service` build for each request.
unfoldable pub service_bus : EventBus
unfolding register_event_handlers
service_bus = register_event_handlers new_bus

module _ ⦃ext : External⦄ where
  unfoldable pub notify_loan : NotificationType → String → DomainEvent → Exec State (Unit {0})
  unfolding send_notification
  notify_loan type message (DomainEvent.loan_created e) =
      run (send_notification e.user_id type message (some e.loan_id) none) >> pure tt
  notify_loan type message (DomainEvent.loan_returned e) =
      run (send_notification e.user_id type message (some e.loan_id) none) >> pure tt
  notify_loan type message (DomainEvent.loan_cancelled e) =
      run (send_notification e.user_id type message (some e.loan_id) none) >> pure tt
  notify_loan type message (DomainEvent.reservation_created e) = raise attribute_error
  notify_loan type message (DomainEvent.reservation_cancelled e) = raise attribute_error

  unfoldable pub notify_reservation :
      NotificationType → String → DomainEvent → Exec State (Unit {0})
  unfolding send_notification
  notify_reservation type message (DomainEvent.loan_created e) = raise attribute_error
  notify_reservation type message (DomainEvent.loan_returned e) = raise attribute_error
  notify_reservation type message (DomainEvent.loan_cancelled e) = raise attribute_error
  notify_reservation type message (DomainEvent.reservation_created e) =
      run (send_notification e.user_id type message none (some e.reservation_id)) >> pure tt
  notify_reservation type message (DomainEvent.reservation_cancelled e) =
      run (send_notification e.user_id type message none (some e.reservation_id)) >> pure tt

  -- `handler.handle(event)`: a handler reads `event.loan_id` or `event.reservation_id`.
  unfoldable pub handle : Handler → DomainEvent → Exec State (Unit {0})
  unfolding notify_loan notify_reservation
  handle loan_created_notification =
      notify_loan NotificationType.loan_created
        "Empréstimo criado com sucesso. O prazo padrão de devolução é de 14 dias."
  handle loan_returned_notification =
      notify_loan NotificationType.loan_returned "Empréstimo devolvido com sucesso."
  handle loan_cancelled_notification =
      notify_loan NotificationType.loan_cancelled "Empréstimo cancelado com sucesso."
  handle reservation_created_notification =
      notify_reservation NotificationType.reservation_created
        "Reserva criada com sucesso. Avisaremos quando o livro estiver disponivel."
  handle reservation_cancelled_notification =
      notify_reservation NotificationType.reservation_cancelled "Reserva cancelada com sucesso."

  abbrev pub handle_all : List Handler → DomainEvent → Exec State (Unit {0})
  handle_all [] event = pure tt
  handle_all (h ∷ hs) event = handle h event >> handle_all hs event

  unfoldable pub publish : EventBus → DomainEvent → Exec State (Unit {0})
  unfolding handle
  publish bus event = handle_all (handlers_of (type_of event) bus) event
