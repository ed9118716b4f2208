-- ===== src/Tests/InventoryWitnesses.antt =====
-- The theorems on runs of requests at a day of the library.
use library_api.Prelude.{◌≡◌, refl, arith, count, List, [], ◌∷◌, ◌==◌, Bool-cases, inl, inr}
use library_api.Prelude.Int.{pos, ◌+ℤ◌}
use library_api.Models.Loan.{loan_row}
use library_api.Models.Book.{book_row}
use library_api.Table.{find_by_key}
use library_api.Books.Service.{CreateBook}
use library_api.Api.{
  Request, create_book, create_loan, return_loan, pay_fine, create_reservation, run_due_loans_job,
  serve, serve_all,
}
use library_api.Inventory.{shelf, Step}
use library_api.Inventory.Refines.{serve-Step}
use library_api.Inventory.Stock.{IsBalanced}
use library_api.Inventory.Limits.{IsLimited, IsRenewedFew, Kept}
use library_api.Inventory.Runs.{AllAdmissible, serve_all-IsRenewedFew, serve_all-Kept}
use library_api.Inventory.Queues.{is_fulfilled, serve_all-fulfilled}
use library_api.Tests.Fixture.{local, world, late_loan}
use library_api.Tests.Worlds.{borrow}

abbrev pub quincas : CreateBook
quincas = record {
  title = "Quincas Borba";
  isbn = "2";
  category = "Romance";
  total_copies = pos 1;
  author_id = "machado";
}

-- A new book, a loan of the last copy, a reservation, a return refused for its fine, the payment,
-- the return, and the daily job.
abbrev day : List Request
day =
    create_book quincas
    ∷ create_loan borrow
    ∷ create_reservation (record { book_id = "casmurro" }) "ana"
    ∷ return_loan "late"
    ∷ pay_fine "late"
    ∷ return_loan "late"
    ∷ run_due_loans_job
    ∷ []

day-AllAdmissible : AllAdmissible day world
unfolding find_by_key
day-AllAdmissible = ((refl, ground arith), (tt, (tt, (tt, (tt, (tt, (tt, tt)))))))

pub world-IsBalanced : IsBalanced (shelf world)
unfolding find_by_key ◌+ℤ◌
world-IsBalanced = record {
  at = λ id. elim (Bool-cases ("casmurro" == id)) [
    | inl same ↦ rw same (refl, ground arith)
    | inr other ↦ rw other refl
  ];
}

pub world-IsLimited : IsLimited (shelf world)
world-IsLimited = record { at = λ u. ground arith }

world-IsRenewedFew : IsRenewedFew (shelf world)
unfolding find_by_key
world-IsRenewedFew = record { at = λ k. ground arith }

serve-Step_example : Step (shelf world) (shelf (serve (create_book quincas) world))
unfolding find_by_key
serve-Step_example = serve-Step (create_book quincas) world (refl, ground arith)

serve_all-IsRenewedFew_example : IsRenewedFew (shelf (serve_all day world))
serve_all-IsRenewedFew_example =
    serve_all-IsRenewedFew day world day-AllAdmissible world-IsRenewedFew

serve_all-Kept_example : Kept late_loan (find_by_key "late" (serve_all day world).loans)
unfolding find_by_key
serve_all-Kept_example = serve_all-Kept day world "late" late_loan day-AllAdmissible refl

serve_all-fulfilled_example :
    count is_fulfilled (serve_all day world).reservations ≡ count is_fulfilled world.reservations
serve_all-fulfilled_example = serve_all-fulfilled day world
