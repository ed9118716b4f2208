-- ===== src/Lib.antt =====
-- The library API: what the FastAPI application under app/ does to its tables, its cache and its
-- notifications.
--
-- The application lends the copies of books. A request over HTTP reaches a controller, which
-- identifies the caller by a token, tests the role or the owner, and calls a service (users, authors,
-- books, loans, reservations, notifications, reports). The service reads and writes the tables through
-- repositories, keeps documents in Redis, publishes a domain event on a bus, and counts it. The
-- handlers on the bus send notifications; a daily job sends reminders. The migrations build the tables
-- that the models describe.
--
-- Where to find what:
--   Prelude      library names, Boolean tests, lists over native numbers, integers
--   Datetime     datetimes as microseconds of UTC, dates as days
--   Errors       app/exceptions: the exceptions and the answers of their handlers
--   Table        a table as the list of its rows; find_by_key, insert and save stand for SELECT by
--                key, INSERT and UPDATE
--   Models       the models of app/domain/*/models, one record each
--   Tokens       what app/config/security/jwt.py signs, and what PyJWT answers
--   Exec         the methods as state-passing functions that return a value or an exception
--   Responses    the response schemas, and the documents that the cache holds
--   External     what the application calls and does not implement: Redis, json, PyJWT, passlib,
--                pydantic's EmailStr, the clock, uuid, ILIKE; a parameter, with the documented laws
--                that are used
--   World        the tables, the cache, the counters, and how often the clock and the generator of
--                identifiers were asked
--   Cache        app/cache: CacheService, the keys, and the read-through of the services
--   Events       app/events: the events and the classes of their handlers
--   EventBus     app/events/bus.py, the handlers and registrar_handlers.py
--   Notifications
--                app/domain/notifications: the service, the repository, and Job for
--                jobs/due_loan_notification_job.py
--   Pagination   the query parameters page and size of the controllers
--   Security     app/config/security/dependencies.py: get_current_user and get_current_admin
--   Users        app/domain/users: Repository, Service with create_access_token and hash_password of
--                app/config/security, Controller, Effects, Accounts for the life of an account,
--                Deletion for its email, Pages for the pages of a list
--   Authors      app/domain/authors: Repository, Service, Controller, Effects, and Catalogue for what
--                readers of the books see after a change of an author
--   Books        app/domain/books: Repository, Service, Effects for what a method changes, Update for
--                every branch of update_book, Listing for the keys of the lists, Controller
--   Loans        app/domain/loans: Fine for services/fine_calculator.py, Repository, Queries and
--                Service for services/loan_service.py, Effects for what each method changes, Race for
--                two loans at once, Controller
--   Reservations app/domain/reservation: Repository, Service, Effects
--   Reports      app/domain/reports: Service for the statistics, the export and the report on fines,
--                Text and Csv for what it uses of Python's texts and of csv, CsvReader for a reader of
--                such files, Totals for how the reports agree, Controller
--   Api          the requests that write, as one type, and serving them one after the other
--   Inventory    an abstract machine on the tables of books and loans, with the requests as its
--                steps, and invariants of it; Queues for the table of reservations, Accounts for
--                that of users
--   Web          the endpoints of all controllers as one type, what the application answers, and who may
--                change and see what: Callers, Access and Owners for the tests, Reads for what keeps the
--                tables,
--                Courses and Answers for what a request comes to, Gate, Privileges, Views, Visits,
--                Shelves
--   System       app/main.py: the middleware, the responses and the check of health; RequestIds for
--                the identifiers of requests, HealthChecks
--   Migrations   alembic/versions: Versions and Seed for the upgrade and downgrade of each revision,
--                Tables for what they create, Operations for what their statements do on a database
--                (Schema), Metadata for the tables that the models declare,
--                HeadTables and Head for how they agree, Erase, Installed and InUse for the same
--                in a database with data, Kept and Upgrades for the data that stays, RoundTrip,
--                Changes, Undo, Activity, Restored and Downgrades for what a downgrade gives back,
--                Again and Fill for what is refused, Admin, Entered, Seeding and SignIn for the first
--                administrator
--   Effects      how a statement about a run is made, by whether it returns or raises
--   Tests        a concrete environment, and the theorems at concrete inputs
--
-- Conventions. A method is a function from the state to its result and the next state, and its guards
-- stand in the order of the source. A request that raises ends without further effect; the methods
-- of the services raise only before their first write, and what the daily job has sent before it
-- raises stays sent. Money is in cents, since the daily fine is a constant. Copies
-- are signed integers, since the columns are. The numbers of days late are natural: past the test of
-- the source the subtraction does not go below 0. Recursion is on lists, texts and counts, so no fuel
-- is used. A body stands for what its schema made of it; Users.Service.login_schema is the one schema
-- that is written out, with the address as EmailStr makes it.
--
-- Each Controller of Books, Loans, Reservations, Notifications is the file of that name under the
-- domain's controllers folder.
--
-- Not modelled: how FastAPI parses a request and its body, and refuses one without credentials; the
-- rate limiter, the scheduler, the settings and the session, which are glue around libraries;
-- alembic/env.py; the time that a request took, in the log; the headers that Starlette
-- derives from a content; the file that reportlab makes; the lengths of the columns, but for the row
-- that the last migration inserts. Requests
-- are served one at a time, but for two loans to one user at once (Race); what other transactions
-- do to each other is left out, and so is the expiry of a cached document. Sums of amounts in the
-- reports are exact, where the source adds floats. What a response model drops of a document is
-- dropped before it is cached.
pub mod Prelude
pub mod Datetime
pub mod Errors
pub mod Table
pub mod Models
pub mod Tokens
pub mod Exec
pub mod Responses
pub mod External
pub mod World
pub mod Cache
pub mod Events
pub mod Notifications
pub mod EventBus
pub mod Effects
pub mod Pagination
pub mod Security
pub mod Users
pub mod Authors
pub mod Books
pub mod Loans
pub mod Reservations
pub mod Reports
pub mod Api
pub mod Inventory
pub mod Web
pub mod Migrations
pub mod System
pub mod Tests
