-- ===== src/Inventory/BookSteps.antt =====
-- The book service's changes of the two tables as steps of the abstract machine.
use library_api.Prelude.{
  String, ◌≡◌, refl, ◌⊎◌, none, some, true, false, arith, inl, inr, Option-cases, List,
}
use library_api.Prelude.Int.{pos, ◌+ℤ◌, ◌-ℤ◌, ◌≤ℤ◌, +ℤ_comm}
use library_api.Models.Book.{Book, book_row}
use library_api.Models.Loan.{loan_row}
use library_api.Table.{find_by_key, find_by_key_self, id_of-find_by_key}
use library_api.External.{External}
use library_api.World.{State}
use library_api.Books.Repository as Books
use library_api.Books.Repository.{Listed}
use library_api.Books.Service.{CreateBook, UpdateBook, edited, below_borrowed}
use library_api.Books.Effects.{BookCreated, BookUpdated, BookDeleted, new_book}
use library_api.Inventory.{shelf, Step, acquire, edit}

module _ ⦃ext : External⦄ where
  -- A new book has an identifier that no book has, and no fewer than zero copies.
  abbrev pub IsNew : CreateBook → State → Type 0
  IsNew input w =
      (find_by_key (ext.uuid w.identifiers) w.books ≡ none) × (pos 0 ≤ℤ input.total_copies)

  pub BookCreated-Step :
      {input : CreateBook} {w w' : State}
      → IsNew input w
      → BookCreated input w w'
      → Step (shelf w) (shelf w')
  BookCreated-Step {input} {w} {w'} a p =
      acquire (new_book input w) a.0 refl a.1 p.books p.rest.loans

  -- What `find_by_id` of the book repository has found is the row under its key.
  pub listed_book :
      (book_id : String) (w : State) {l : Listed}
      → Books.find_by_id book_id w ≡ some l
      → (find_by_key l.book.id w.books ≡ some l.book)
        × (l.book.is_active ≡ true)
        × (l.book.id ≡ book_id)
  listed_book book_id w {l} h = elim (Option-cases (find_by_key book_id w.books)) [
    | inl no_row ↦ ground arith
    | inr (b, found) ↦
        let own = find_by_key_self book_id w.books {x = b} found in
        ground (arith, own, id_of-find_by_key book_id w.books {x = b} found)
  ]

  -- An edit keeps the key.
  listed_edited :
      (input : UpdateBook) (b : Book) (l : List Book)
      → find_by_key b.id l ≡ some b
      → find_by_key (edited input b).id l ≡ some b
  listed_edited input b l h = ground arith

  edited_shift :
      (input : UpdateBook) (b : Book)
      → (edited input b).available_copies +ℤ b.total_copies
        ≡ (edited input b).total_copies +ℤ b.available_copies
  unfolding ◌+ℤ◌ ◌-ℤ◌
  edited_shift input b = ground arith

  edited_nonneg :
      (input : UpdateBook) (b : Book)
      → below_borrowed input.total_copies b ≡ false
      → (((edited input b).available_copies ≡ b.available_copies)
          ⊎ (pos 0 ≤ℤ (edited input b).available_copies))
  unfolding ◌+ℤ◌ ◌-ℤ◌
  edited_nonneg input b h = ground arith

  pub BookUpdated-Step :
      {book_id : String} {input : UpdateBook} {w w' : State}
      → BookUpdated book_id input w w'
      → Step (shelf w) (shelf w')
  BookUpdated-Step {book_id} {input} {w} {w'} p =
      let b = p.listed.book in
      edit b (edited input b) (listed_edited input b w.books (listed_book book_id w p.found).0)
        (edited_shift input b) (edited_nonneg input b p.enough) p.books p.rest.loans

  pub BookDeleted-Step :
      {book_id : String} {w w' : State} → BookDeleted book_id w w' → Step (shelf w) (shelf w')
  BookDeleted-Step {book_id} {w} {w'} p =
      let b = p.listed.book in
      edit b (record b { is_active = false }) (listed_book book_id w p.found).0
        (+ℤ_comm b.available_copies b.total_copies) (inl refl) p.books p.rest.loans
