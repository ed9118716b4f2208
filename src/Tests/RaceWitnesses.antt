-- ===== src/Tests/RaceWitnesses.antt =====
-- Two loans to one user at the same time, at concrete inputs.
use library_api.Prelude.{◌≡◌, ◌≢◌, refl, some, [], ◌∷◌, arith, String, true, false, eq_iff}
use library_api.Errors.{domain, business_rule}
use library_api.Models.Book.{Book, book_row}
use library_api.Responses.{LoanResponse}
use library_api.Table.{find_by_key}
use library_api.EventBus.{service_bus}
use library_api.Exec.{ok, err}
use library_api.World.{World}
use library_api.Loans.Queries.{find_user}
use library_api.Loans.Repository
use library_api.Loans.Service.{CreateLoan, create_loan}
use library_api.Loans.Race.{interleaved, interleaved-create_loan}
use library_api.Tests.Redis.{Store}
use library_api.Tests.Fixture.{local, world, tables, late_loan, casmurro, ana}
use library_api.Tests.Worlds.{borrow, fresh_loan}

abbrev borba : Book
borba = record casmurro { id = "borba"; isbn = "2"; title = "Quincas Borba" }

-- Ana has two loans, and a copy of each book is on the shelf.
abbrev two_out : World Store
two_out = record world {
  db = record tables { loans = late_loan ∷ fresh_loan ∷ []; books = casmurro ∷ borba ∷ [] };
}

abbrev borrow_other : CreateLoan
borrow_other = record borrow { book_id = "borba" }

ana_is_known : find_user "ana" two_out ≡ some ana
unfolding find_by_key
ana_is_known = refl

casmurro_is_there : Repository.get_book_for_update "casmurro" two_out ≡ some casmurro
unfolding find_by_key
casmurro_is_there = refl

borba_is_there : Repository.get_book_for_update "borba" two_out ≡ some borba
unfolding find_by_key
borba_is_there = refl

other_book : ◌≢◌ {A = String} "borba" "casmurro"
other_book e = let b : false ≡ true = (eq_iff "borba" "casmurro").1 e in ground (arith, b)

interleaved-create_loan_example :
    (r : LoanResponse × LoanResponse) × ((interleaved borrow borrow_other two_out).0 ≡ ok r)
    × (Repository.count_active_by_user "ana" (interleaved borrow borrow_other two_out).1 ≡ 4)
    × ((create_loan service_bus borrow_other (create_loan service_bus borrow two_out).1).0
        ≡ err (domain (business_rule "Usuário atingiu o número máximo de empréstimos ativos")))
interleaved-create_loan_example =
    interleaved-create_loan borrow borrow_other two_out ana casmurro borba refl other_book
      ana_is_known refl casmurro_is_there (omega arith) borba_is_there (omega arith)
