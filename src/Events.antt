-- ===== src/Events.antt =====
-- app/events: the domain events, and which handler class answers to which event.
use library_api.Prelude.{ℕ, String, Bool, eqb}
use library_api.Datetime.{Datetime}

pub record LoanEvent : Type 0 where
  pub occurred_at : Datetime
  pub loan_id : String
  pub user_id : String
  pub book_id : String

pub record ReservationEvent : Type 0 where
  pub occurred_at : Datetime
  pub reservation_id : String
  pub user_id : String
  pub book_id : String

pub data DomainEvent : Type 0 where
  loan_created loan_returned loan_cancelled : LoanEvent → DomainEvent
  reservation_created reservation_cancelled : ReservationEvent → DomainEvent

-- The classes of the events.
pub data EventType : Type 0 where
  loan_created loan_returned loan_cancelled reservation_created reservation_cancelled : EventType

-- `type(event)`
abbrev pub type_of : DomainEvent → EventType
type_of (DomainEvent.loan_created e) = EventType.loan_created
type_of (DomainEvent.loan_returned e) = EventType.loan_returned
type_of (DomainEvent.loan_cancelled e) = EventType.loan_cancelled
type_of (DomainEvent.reservation_created e) = EventType.reservation_created
type_of (DomainEvent.reservation_cancelled e) = EventType.reservation_cancelled

-- A handler by its class; the notification service that it holds is the same for all.
pub data Handler : Type 0 where
  loan_created_notification loan_returned_notification loan_cancelled_notification : Handler
  reservation_created_notification reservation_cancelled_notification : Handler

abbrev pub event_type_ordinal : EventType → ℕ
event_type_ordinal EventType.loan_created = 0
event_type_ordinal EventType.loan_returned = 1
event_type_ordinal EventType.loan_cancelled = 2
event_type_ordinal EventType.reservation_created = 3
event_type_ordinal EventType.reservation_cancelled = 4

abbrev pub handler_ordinal : Handler → ℕ
handler_ordinal loan_created_notification = 0
handler_ordinal loan_returned_notification = 1
handler_ordinal loan_cancelled_notification = 2
handler_ordinal reservation_created_notification = 3
handler_ordinal reservation_cancelled_notification = 4

abbrev pub event_type_eq : EventType → EventType → Bool
event_type_eq s t = eqb (event_type_ordinal s) (event_type_ordinal t)

abbrev pub handler_eq : Handler → Handler → Bool
handler_eq s t = eqb (handler_ordinal s) (handler_ordinal t)
