-- ===== src/Books/Controller.antt =====
-- app/domain/books/controllers/book_controller.py.
use library_api.Prelude.{String, Bool, Option}
use library_api.Prelude.Int.{ℤ}
use library_api.Models.Book.{Book}
use library_api.Responses.{Document, BookResponse}
use library_api.Exec.{Exec, ◌>>=◌, ◌>>◌}
use library_api.External.{External}
use library_api.World.{State}
use library_api.Security.{get_current_admin}
use library_api.Pagination.{page_query}
use library_api.Books.Service.{CreateBook, UpdateBook}
use library_api.Books.Service as Books

module _ ⦃ext : External⦄ where
  abbrev pub create_book : ext.Token → CreateBook → Exec State BookResponse
  create_book token input = get_current_admin token >> Books.create_book input

  unfoldable pub list_books :
      ℤ → ℤ → Option String → Option String → Option String → Option Bool → Exec State Document
  unfolding Books.list_books_paginated
  list_books page size title category author available = do
    query ← page_query page size
    Books.list_books_paginated query.0 query.1 title category author available

  abbrev pub get_book : String → Exec State Document
  get_book book_id = Books.get_book book_id

  abbrev pub update_book : ext.Token → String → UpdateBook → Exec State Book
  update_book token book_id input = get_current_admin token >> Books.update_book book_id input

  abbrev pub delete_book : ext.Token → String → Exec State (Unit {0})
  delete_book token book_id = get_current_admin token >> Books.delete_book book_id
