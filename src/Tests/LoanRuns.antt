-- ===== src/Tests/LoanRuns.antt =====
-- Runs of the loan service, by evaluation.
use library_api.Prelude.{◌≡◌, refl, [], ◌∷◌}
use library_api.Prelude.Int.{pos, ◌-ℤ◌}
use library_api.Errors.{domain, business_rule}
use library_api.Exec.{err}
use library_api.Table.{find_by_key, save}
use library_api.EventBus.{service_bus}
use library_api.Loans.Service.{create_loan}
use library_api.Tests.Fixture.{local, world, casmurro}
use library_api.Tests.Worlds.{borrow}

lends_the_last_copy :
    (create_loan service_bus borrow world).1.books
    ≡ record casmurro { available_copies = pos 0 } ∷ []
unfolding create_loan service_bus find_by_key save ◌-ℤ◌
lends_the_last_copy = refl

refuses_without_a_copy :
    (create_loan service_bus borrow (create_loan service_bus borrow world).1).0
    ≡ err (domain (business_rule "Livro indisponível"))
unfolding create_loan service_bus find_by_key save ◌-ℤ◌
refuses_without_a_copy = refl
