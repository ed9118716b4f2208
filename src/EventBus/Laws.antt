-- ===== src/EventBus/Laws.antt =====
-- `subscribe` of app/events/bus.py, and the handlers that `register_event_handlers` subscribes.
use library_api.Prelude.{◌≡◌, refl, String, Option, none, some, true, arith, List, [], ◌∷◌, ◌++◌}
use library_api.Events.{DomainEvent, EventType, Handler, event_type_eq, handler_eq}
use library_api.Models.Notification.{Notification, notification_row}
use library_api.Table.{insert}
use library_api.Exec.{ok}
use library_api.External.{External}
use library_api.World.{State}
use library_api.EventBus.{
  EventBus, has_class, has_key, append_handler, subscribe, service_bus, publish,
}

-- The user, the loan and the reservation of an event.
abbrev pub user_of : DomainEvent → String
user_of (DomainEvent.loan_created e) = e.user_id
user_of (DomainEvent.loan_returned e) = e.user_id
user_of (DomainEvent.loan_cancelled e) = e.user_id
user_of (DomainEvent.reservation_created e) = e.user_id
user_of (DomainEvent.reservation_cancelled e) = e.user_id

abbrev pub loan_of : DomainEvent → Option String
loan_of (DomainEvent.loan_created e) = some e.loan_id
loan_of (DomainEvent.loan_returned e) = some e.loan_id
loan_of (DomainEvent.loan_cancelled e) = some e.loan_id
loan_of (DomainEvent.reservation_created e) = none
loan_of (DomainEvent.reservation_cancelled e) = none

abbrev pub reservation_of : DomainEvent → Option String
reservation_of (DomainEvent.loan_created e) = none
reservation_of (DomainEvent.loan_returned e) = none
reservation_of (DomainEvent.loan_cancelled e) = none
reservation_of (DomainEvent.reservation_created e) = some e.reservation_id
reservation_of (DomainEvent.reservation_cancelled e) = some e.reservation_id

event_type_eq_refl : (t : EventType) → event_type_eq t t ≡ true
event_type_eq_refl t = ground arith

handler_eq_refl : (h : Handler) → handler_eq h h ≡ true
handler_eq_refl h = ground arith

has_class-append : (h : Handler) (hs : List Handler) → has_class h (hs ++ h ∷ []) ≡ true
has_class-append h [] = ground (arith, handler_eq_refl h)
has_class-append h (g ∷ hs) = ground (arith, has_class-append h hs)

has_key-append_handler :
    (t : EventType) (h : Handler) (bus : EventBus) → has_key t h (append_handler t h bus) ≡ true
has_key-append_handler t h [] = ground (arith, event_type_eq_refl t, handler_eq_refl h)
has_key-append_handler t h ((s, hs) ∷ bus) =
    ground (arith, has_class-append h hs, has_key-append_handler t h bus)

-- After `subscribe` the key of the event type and the handler class is registered, and to
-- subscribe the class again leaves the bus as it is.
pub subscribe-subscribe :
    (t : EventType) (h : Handler) (bus : EventBus)
    → (has_key t h (subscribe t h bus) ≡ true)
      × (subscribe t h (subscribe t h bus) ≡ subscribe t h bus)
unfolding subscribe
subscribe-subscribe t h bus = ground (arith, has_key-append_handler t h bus)

module _ ⦃ext : External⦄ where
  -- On the bus that the services build, publishing an event returns and adds one notification,
  -- for the user and the loan or reservation of the event.
  pub publish-service_bus :
      (e : DomainEvent) (w : State)
      → ((publish service_bus e w).0 ≡ ok tt)
        × ((n : Notification) × ((publish service_bus e w).1.notifications
              ≡ insert n w.notifications)
            × (n.user_id ≡ user_of e)
            × (n.loan_id ≡ loan_of e)
            × (n.reservation_id ≡ reservation_of e))
  unfolding publish service_bus
  publish-service_bus (DomainEvent.loan_created e) w = (refl, (_, refl, refl, refl, refl))
  publish-service_bus (DomainEvent.loan_returned e) w = (refl, (_, refl, refl, refl, refl))
  publish-service_bus (DomainEvent.loan_cancelled e) w = (refl, (_, refl, refl, refl, refl))
  publish-service_bus (DomainEvent.reservation_created e) w = (refl, (_, refl, refl, refl, refl))
  publish-service_bus (DomainEvent.reservation_cancelled e) w = (refl, (_, refl, refl, refl, refl))
