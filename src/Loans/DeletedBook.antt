-- ===== src/Loans/DeletedBook.antt =====
-- `delete_book` of the book service followed by `return_loan` and `cancel_loan`.
use library_api.Prelude.{String, ◌≡◌, ◌≢◌, false, none, some, arith, eq_iff}
use library_api.Errors.{domain, not_found}
use library_api.Models.Book.{book_row}
use library_api.Models.Loan.{Loan, loan_row}
use library_api.Responses.{ReturnLoanResponse}
use library_api.Table.{find_by_key-save}
use library_api.Exec.{ok, err}
use library_api.EventBus.{service_bus}
use library_api.External.{External}
use library_api.World.{State}
use library_api.Effects.{Ends-ok, Unchanged}
use library_api.Books.Service.{delete_book}
use library_api.Books.Effects.{BookDeleted, delete_book-Ends}
use library_api.Inventory.BookSteps.{listed_book}
use library_api.Loans.Repository
use library_api.Loans.Service.{return_loan, cancel_loan}
use library_api.Loans.Effects.Return.{Returned, return_loan-Ends}

module _ ⦃ext : External⦄ where
  gone_after_delete :
      (book_id : String) (w : State)
      → (delete_book book_id w).0 ≡ ok tt
      → Repository.get_book_for_update book_id (delete_book book_id w).1 ≡ none
  gone_after_delete book_id w h =
      let (_, p) =
        Ends-ok (λ r w'. BookDeleted book_id w w') (Unchanged w) (delete_book book_id w)
          (delete_book-Ends book_id w) h in
      let (found, _, key) = listed_book book_id w p.found in
      rw
        (
          p.books,
          find_by_key-save book_id (record p.listed.book { is_active = false }) p.listed.book
              w.books found,
        )
        (ground (arith, eq_iff p.listed.book.id book_id))

  -- Without its book, a loan cannot be closed.
  no_book_no_return :
      (loan_id : String) (w : State) (loan : Loan)
      → Repository.find_active_by_id_for_update loan_id w ≡ some loan
      → Repository.get_book_for_update loan.book_id w ≡ none
      → (r : ReturnLoanResponse) → (return_loan service_bus loan_id w).0 ≢ ok r
  no_book_no_return loan_id w loan active gone r h =
      let (_, p) =
        Ends-ok (Returned loan_id w) (Unchanged w) (return_loan service_bus loan_id w)
          (return_loan-Ends loan_id w) h in
      let same : p.loan ≡ loan = ground (arith, p.active) in ground (arith, p.found)

  no_book_no_cancel :
      (loan_id : String) (w : State) (loan : Loan)
      → Repository.find_active_by_id_for_update loan_id w ≡ some loan
      → Repository.get_book_for_update loan.book_id w ≡ none
      → (cancel_loan service_bus loan_id w).0 ≡ err (domain (not_found "Livro não encontrado"))
  unfolding cancel_loan
  no_book_no_cancel loan_id w loan active gone = ground arith

  -- Once `delete_book` has returned for the book of an active loan, `return_loan` cannot return for
  -- that loan, and `cancel_loan` answers that the book is not found.
  pub return_loan-delete_book :
      (book_id loan_id : String) (w : State) (loan : Loan)
      → Repository.find_active_by_id_for_update loan_id w ≡ some loan
      → loan.book_id ≡ book_id
      → (delete_book book_id w).0 ≡ ok tt
      → let w' = (delete_book book_id w).1 in
        ((r : ReturnLoanResponse) → (return_loan service_bus loan_id w').0 ≢ ok r)
        × ((cancel_loan service_bus loan_id w').0 ≡ err (domain (not_found "Livro não encontrado")))
  return_loan-delete_book book_id loan_id w loan active of_book deleted =
      let w' = (delete_book book_id w).1 in
      let (_, p) =
        Ends-ok (λ r w'. BookDeleted book_id w w') (Unchanged w) (delete_book book_id w)
          (delete_book-Ends book_id w) deleted in
      let still : Repository.find_active_by_id_for_update loan_id w' ≡ some loan =
        rw p.rest.loans active in
      let gone : Repository.get_book_for_update loan.book_id w' ≡ none =
        rw of_book (gone_after_delete book_id w deleted) in
      (no_book_no_return loan_id w' loan still gone, no_book_no_cancel loan_id w' loan still gone)
