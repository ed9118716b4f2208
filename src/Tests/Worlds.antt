-- ===== src/Tests/Worlds.antt =====
-- More worlds for the tests: a loan that is not late, a loan due today, and a cached document.
use library_api.Prelude.{◌+◌, none, [], ◌∷◌}
use library_api.Datetime.{days}
use library_api.Models.Loan.{Loan}
use library_api.Responses.{Document}
use library_api.World.{World}
use library_api.Loans.Queries.{serialize_loan}
use library_api.Loans.Service.{CreateLoan}
use library_api.Tests.Redis.{Store}
use library_api.Tests.Fixture.{local, world, tables, late_loan, casmurro}
use library_api.Models.Reservation.{Reservation, ReservationStatus}
use library_api.Prelude.Int.{pos}

abbrev pub borrow : CreateLoan
borrow = record { user_id = "ana"; book_id = "casmurro" }

-- Lent on day 98 and due on day 112.
abbrev pub fresh_loan : Loan
fresh_loan = record late_loan { id = "fresh"; loan_date = days 98; due_date = days 112 }

abbrev pub fresh_world : World Store
fresh_world = record world { db = record tables { loans = fresh_loan ∷ [] } }

-- Due today at ten.
abbrev pub due_today : Loan
due_today = record late_loan { due_date = days 100 + 36_000_000_000 }

abbrev pub cached_loan : Document
unfolding serialize_loan
cached_loan = Document.loan (serialize_loan fresh_loan fresh_world).0

-- The answer of an earlier `get_loan` is in the cache.
abbrev pub cached_world : World Store
cached_world = record fresh_world { cache = ("loans:item:fresh", cached_loan) ∷ [] }

-- Reserved by another user, with no copy left.
abbrev pub queue : Reservation
queue = record {
  id = "queue";
  user_id = "bia";
  book_id = "casmurro";
  status = ReservationStatus.active;
  created_at = days 99;
  cancelled_at = none;
  fulfilled_at = none;
}

abbrev pub reserved_world : World Store
reserved_world = record world {
  db = record tables {
    books = record casmurro { available_copies = pos 0 } ∷ [];
    reservations = queue ∷ [];
  };
}
