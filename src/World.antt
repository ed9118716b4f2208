-- ===== src/World.antt =====
-- What a request handler can see and change: the tables, the cache, the Prometheus counters of
-- app/config/observability/metrics.py, and how often the clock and the generator of identifiers
-- have been asked.
use library_api.Prelude.{ℕ, ◌+◌, String, List}
use library_api.Datetime.{Datetime, Date}
use library_api.Models.User.{User}
use library_api.Models.Author.{Author}
use library_api.Models.Book.{Book}
use library_api.Models.Loan.{Loan}
use library_api.Models.Reservation.{Reservation}
use library_api.Models.Notification.{Notification}
use library_api.External.{External}

pub record Db : Type 0 where
  pub users : List User
  pub authors : List Author
  pub books : List Book
  pub loans : List Loan
  pub reservations : List Reservation
  pub notifications : List Notification

pub record Metrics : Type 0 where
  pub loans_created_total : ℕ
  pub loans_returned_total : ℕ
  pub loans_cancelled_total : ℕ
  pub loans_renewed_total : ℕ
  pub reservations_created_total : ℕ
  pub reservations_cancelled_total : ℕ
  pub notifications_sent_total : ℕ

pub record World (Store : Type 0) : Type 0 where
  pub db : Db
  pub open db use *
  pub cache : Store
  pub metrics : Metrics
  pub readings : ℕ
  pub identifiers : ℕ

abbrev pub with_users : {Store : Type 0} → World Store → List User → World Store
with_users w l = record w { db = record w.db { users = l } }

abbrev pub with_authors : {Store : Type 0} → World Store → List Author → World Store
with_authors w l = record w { db = record w.db { authors = l } }

abbrev pub with_books : {Store : Type 0} → World Store → List Book → World Store
with_books w l = record w { db = record w.db { books = l } }

abbrev pub with_loans : {Store : Type 0} → World Store → List Loan → World Store
with_loans w l = record w { db = record w.db { loans = l } }

abbrev pub with_reservations : {Store : Type 0} → World Store → List Reservation → World Store
with_reservations w l = record w { db = record w.db { reservations = l } }

abbrev pub with_notifications : {Store : Type 0} → World Store → List Notification → World Store
with_notifications w l = record w { db = record w.db { notifications = l } }

module _ ⦃ext : External⦄ where
  abbrev pub State : Type 0
  State = World ext.Store

  -- `datetime.utcnow()`
  abbrev pub utcnow : State → Datetime × State
  utcnow w = (ext.clock w.readings, record w { readings = w.readings + 1 })

  -- `date.today()`
  abbrev pub today : State → Date × State
  today w = (ext.local_date w.readings, record w { readings = w.readings + 1 })

  -- `str(uuid.uuid7())`
  abbrev pub new_id : State → String × State
  new_id w = (ext.uuid w.identifiers, record w { identifiers = w.identifiers + 1 })
