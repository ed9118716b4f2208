-- ===== src/Inventory.antt =====
-- The shelf and the loans as an abstract machine: what any request may do to the two tables.
pub mod LoanSteps
pub mod BookSteps
pub mod Refines
pub mod Stock
pub mod Limits
pub mod Runs
pub mod Queues
pub mod Accounts
pub mod Identifiers
use library_api.Prelude.{
  ℕ, ◌+◌, ◌≤◌, ◌<◌, String, ◌≡◌, Bool, true, false, none, some, List, count, map, ◌⊎◌,
}
use library_api.Prelude.Int.{ℤ, pos, ◌+ℤ◌, ◌-ℤ◌, ◌≤ℤ◌}
use library_api.Models.Book.{Book, book_row}
use library_api.Models.Loan.{Loan, LoanStatus, loan_row}
use library_api.External.{External}
use library_api.World.{State}
use library_api.Table.{find_by_key, insert, save}
use library_api.Authors.Repository.{deactivated}
use library_api.Loans.Repository.{is_active, is_active_of_user}

-- The two tables.
pub record Shelf : Type 0 where
  pub books : List Book
  pub loans : List Loan

abbrev pub taken : Book → Book
taken book = record book { available_copies = book.available_copies -ℤ pos 1 }

abbrev pub shelved : Book → Book
shelved book = record book { available_copies = book.available_copies +ℤ pos 1 }

-- The same loan: who has which book since when.
pub record Same (old new : Loan) : Type 0 where
  pub user_id : new.user_id ≡ old.user_id
  pub book_id : new.book_id ≡ old.book_id
  pub loan_date : new.loan_date ≡ old.loan_date
  pub was_active : is_active old ≡ true

module _ ⦃ext : External⦄ where
  abbrev pub shelf : State → Shelf
  shelf w = record { books = w.books; loans = w.loans }

pub data Step (s t : Shelf) : Type 0 where
  idle : t.books ≡ s.books → t.loans ≡ s.loans → Step s t
  lend :
      (book : Book) (loan : Loan)
      → find_by_key book.id s.books ≡ some book
      → pos 1 ≤ℤ book.available_copies
      → count (is_active_of_user loan.user_id) s.loans < 3
      → loan.book_id ≡ book.id
      → loan.status ≡ LoanStatus.active
      → loan.renewal_count ≡ 0
      → t.books ≡ save (taken book) s.books
      → t.loans ≡ insert loan s.loans
      → Step s t
  settle :
      (book : Book) (old new : Loan)
      → find_by_key book.id s.books ≡ some book
      → find_by_key new.id s.loans ≡ some old
      → Same old new
      → old.book_id ≡ book.id
      → is_active new ≡ false
      → new.renewal_count ≡ old.renewal_count
      → t.books ≡ save (shelved book) s.books
      → t.loans ≡ save new s.loans
      → Step s t
  adjust :
      (old new : Loan)
      → find_by_key new.id s.loans ≡ some old
      → Same old new
      → is_active new ≡ true
      → ((new.renewal_count ≡ old.renewal_count) ⊎ (new.renewal_count ≤ 2))
      → t.books ≡ s.books
      → t.loans ≡ save new s.loans
      → Step s t
  acquire :
      (book : Book)
      → find_by_key book.id s.books ≡ none
      → book.available_copies ≡ book.total_copies
      → pos 0 ≤ℤ book.total_copies
      → t.books ≡ insert book s.books
      → t.loans ≡ s.loans
      → Step s t
  edit :
      (old new : Book)
      → find_by_key new.id s.books ≡ some old
      → new.available_copies +ℤ old.total_copies ≡ new.total_copies +ℤ old.available_copies
      → ((new.available_copies ≡ old.available_copies) ⊎ (pos 0 ≤ℤ new.available_copies))
      → t.books ≡ save new s.books
      → t.loans ≡ s.loans
      → Step s t
  hide :
      (author_id : String)
      → t.books ≡ map (deactivated author_id) s.books
      → t.loans ≡ s.loans
      → Step s t
