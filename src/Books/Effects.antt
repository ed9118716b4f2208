-- ===== src/Books/Effects.antt =====
-- How the methods of the book service that write end.
use library_api.Prelude.{
  ◌+◌, ◌≤◌, String, ◌≡◌, refl, true, false, none, some, arith, Bool-cases, Option-cases, inl, inr,
}
use library_api.Models.Author.{Author}
use library_api.Models.Book.{Book, book_row}
use library_api.Table.{insert, save}
use library_api.External.{External}
use library_api.World.{State}
use library_api.Effects.{Ends, Unchanged}
use library_api.Cache
use library_api.Cache.Keys.{book_detail_key}
use library_api.Authors.Repository as Authors
use library_api.Books.Repository
use library_api.Books.Repository.{Listed}
use library_api.Books.Service.{
  CreateBook, UpdateBook, create_book, update_book, delete_book, edited, below_borrowed,
}

module _ ⦃ext : External⦄ where
  -- The tables that the book service leaves alone.
  pub record Untouched (w w' : State) : Type 0 where
    pub users : w'.users ≡ w.users
    pub authors : w'.authors ≡ w.authors
    pub loans : w'.loans ≡ w.loans
    pub reservations : w'.reservations ≡ w.reservations
    pub later : w.identifiers ≤ w'.identifiers

  abbrev pub new_book : CreateBook → State → Book
  new_book input w = record {
    id = ext.uuid w.identifiers;
    title = input.title;
    isbn = input.isbn;
    category = input.category;
    total_copies = input.total_copies;
    available_copies = input.total_copies;
    author_id = input.author_id;
    created_at = ext.clock w.readings;
    is_active = true;
  }

  pub record BookCreated (input : CreateBook) (w w' : State) : Type 0 where
    pub unused : Repository.find_by_isbn input.isbn w ≡ none
    pub author : Author
    pub found : Authors.find_by_id input.author_id w ≡ some author
    pub books : w'.books ≡ insert (new_book input w) w.books
    pub cache : w'.cache ≡ (Cache.delete_pattern "books:list*" w).cache
    pub used : w'.identifiers ≡ w.identifiers + 1
    pub rest : Untouched w w'

  -- When `create_book` returns, no book had the ISBN, the author was found, one book is added
  -- with all its copies available, and the cached lists of books were dropped. When it raises,
  -- the tables, the cache and the counters are as they were.
  pub create_book-Ends :
      (input : CreateBook) (w : State)
      → Ends (λ r w'. BookCreated input w w') (Unchanged w) (create_book input w)
  unfolding create_book
  create_book-Ends input w = elim (Option-cases (Repository.find_by_isbn input.isbn w)) [
    | inr (old, taken) ↦ ground arith
    | inl unused ↦ elim (Option-cases (Authors.find_by_id input.author_id w)) [
      | inl no_author ↦ ground arith
      | inr (author, found) ↦
          rw (unused, found)
            (record {
              unused = unused;
              author = author;
              found = found;
              books = refl;
              cache = refl;
              used = refl;
              rest = ground arith;
            })
    ]
  ]

  abbrev after_book_write : String → State → State
  after_book_write book_id w =
      Cache.delete_pattern "books:list*" (Cache.delete (book_detail_key book_id) w)

  pub record BookUpdated (book_id : String) (input : UpdateBook) (w w' : State) : Type 0 where
    pub listed : Listed
    pub found : Repository.find_by_id book_id w ≡ some listed
    pub enough : below_borrowed input.total_copies listed.book ≡ false
    pub books : w'.books ≡ save (edited input listed.book) w.books
    pub cache : w'.cache ≡ (after_book_write book_id w).cache
    pub rest : Untouched w w'

  -- When `update_book` returns, the book was found, the new total was not below the copies out,
  -- the edited book is stored, the other tables are as they were, and the cached book and lists
  -- of books were dropped. When it raises, the tables, the cache and the counters are as they
  -- were.
  pub update_book-Ends :
      (book_id : String) (input : UpdateBook) (w : State)
      → Ends (λ r w'. BookUpdated book_id input w w') (Unchanged w) (update_book book_id input w)
  unfolding update_book
  update_book-Ends book_id input w = elim (Option-cases (Repository.find_by_id book_id w)) [
    | inl no_book ↦ ground arith
    | inr (listed, found) ↦ elim (Bool-cases (below_borrowed input.total_copies listed.book)) [
      | inl few ↦ ground arith
      | inr enough ↦
          rw (found, enough)
            (record {
              listed = listed;
              found = found;
              enough = enough;
              books = refl;
              cache = refl;
              rest = ground arith;
            })
    ]
  ]

  pub record BookDeleted (book_id : String) (w w' : State) : Type 0 where
    pub listed : Listed
    pub found : Repository.find_by_id book_id w ≡ some listed
    pub books : w'.books ≡ save (record listed.book { is_active = false }) w.books
    pub cache : w'.cache ≡ (after_book_write book_id w).cache
    pub rest : Untouched w w'

  -- When `delete_book` returns, the book was found and is stored as not active, the other tables
  -- are as they were, and the cached book and lists of books were dropped. When it raises, the
  -- tables, the cache and the counters are as they were.
  pub delete_book-Ends :
      (book_id : String) (w : State)
      → Ends (λ r w'. BookDeleted book_id w w') (Unchanged w) (delete_book book_id w)
  unfolding delete_book
  delete_book-Ends book_id w = elim (Option-cases (Repository.find_by_id book_id w)) [
    | inl no_book ↦ ground arith
    | inr (listed, found) ↦
        rw found (record {
          listed = listed;
          found = found;
          books = refl;
          cache = refl;
          rest = ground arith;
        })
  ]
