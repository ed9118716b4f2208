-- ===== src/Books/Service.antt =====
-- app/domain/books/services: `BookService`.
use library_api.Prelude.{
  ℕ, String, Bool, false, Option, none, some, map, ◌==◌, if◌then◌else◌, is_some,
}
use library_api.Prelude.Int.{ℤ, ◌+ℤ◌, ◌-ℤ◌, ltb_ℤ}
use library_api.Errors.{business_rule, not_found}
use library_api.Models.Book.{Book}
use library_api.Responses.{BookResponse, Document}
use library_api.Exec.{Exec, pure, raise_if, run, gets, modify, or_raise, ◌>>=◌, ◌>>◌}
use library_api.External.{External}
use library_api.World.{State, utcnow, new_id}
use library_api.Cache
use library_api.Cache.Keys.{book_detail_key, books_list_key}
use library_api.Authors.Repository as Authors
use library_api.Books.Repository
use library_api.Books.Repository.{Listed}

pub record CreateBook : Type 0 where
  pub title : String
  pub isbn : String
  pub category : String
  pub total_copies : ℤ
  pub author_id : String

pub record UpdateBook : Type 0 where
  pub title : Option String
  pub category : Option String
  pub total_copies : Option ℤ

-- The default time to live of the cache.
abbrev pub book_cache_ttl_seconds : ℕ
book_cache_ttl_seconds = 300

unfoldable pub serialize_book : Listed → BookResponse
serialize_book l = record {
  id = l.book.id;
  title = l.book.title;
  isbn = l.book.isbn;
  category = l.book.category;
  total_copies = l.book.total_copies;
  available_copies = l.book.available_copies;
  author = record { id = l.author.id; name = l.author.name };
  created_at = l.book.created_at;
}

abbrev pub borrowed_books : Book → ℤ
borrowed_books book = book.total_copies -ℤ book.available_copies

-- `data.total_copies is not None and data.total_copies < borrowed_books`
abbrev pub below_borrowed : Option ℤ → Book → Bool
below_borrowed none book = false
below_borrowed (some total) book = ltb_ℤ total (borrowed_books book)

-- `if data.title: book.title = data.title`
abbrev pub text_or : Option String → String → String
text_or none old = old
text_or (some new) old = if new == "" then old else new

abbrev pub with_total : Option ℤ → Book → Book
with_total none book = book
with_total (some total) book = record book {
  total_copies = total;
  available_copies = book.available_copies +ℤ (total -ℤ book.total_copies);
}

abbrev pub edited : UpdateBook → Book → Book
edited input book = with_total input.total_copies (record book {
  title = text_or input.title book.title;
  category = text_or input.category book.category;
})

module _ ⦃ext : External⦄ where
  unfoldable pub create_book : CreateBook → Exec State BookResponse
  unfolding serialize_book
  create_book input = do
    existing_book ← gets (Repository.find_by_isbn input.isbn)
    raise_if (is_some existing_book) (business_rule "ISBN já cadastrado")
    found ← gets (Authors.find_by_id input.author_id)
    author ← or_raise found (not_found "Autor não encontrado")
    book_id ← run new_id
    created_at ← run utcnow
    let book : Book = record {
      id = book_id;
      title = input.title;
      isbn = input.isbn;
      category = input.category;
      total_copies = input.total_copies;
      available_copies = input.total_copies;
      author_id = input.author_id;
      created_at = created_at;
      is_active = Bool.true;
    }
    modify (Repository.create book)
    modify (Cache.delete_pattern "books:list*")
    pure (serialize_book (record { book = book; author = author }))

  -- What a miss of the cache loads.
  abbrev pub load_page :
      ℕ → ℕ → Option String → Option String → Option String → Option Bool → Exec State Document
  load_page page size title category author available = do
    found ← gets (Repository.list_books_paginated page size title category author available)
    pure (
        Document.book_page (record {
          items = map serialize_book found.0;
          total = found.1;
          page = page;
          size = size;
        }))

  unfoldable pub list_books_paginated :
      ℕ → ℕ → Option String → Option String → Option String → Option Bool → Exec State Document
  unfolding Cache.read_through
  list_books_paginated page size title category author available =
      Cache.read_through (books_list_key page size title category author available)
        book_cache_ttl_seconds (load_page page size title category author available)

  unfoldable pub get_book : String → Exec State Document
  unfolding Cache.read_through serialize_book
  get_book book_id = Cache.read_through (book_detail_key book_id) book_cache_ttl_seconds (do
    found ← gets (Repository.find_by_id book_id)
    listed ← or_raise found (not_found "Livro não encontrado")
    pure (Document.book (serialize_book listed)))

  -- The copies change by as much as the total does.
  unfoldable pub update_book : String → UpdateBook → Exec State Book
  update_book book_id input = do
    found ← gets (Repository.find_by_id book_id)
    listed ← or_raise found (not_found "Livro não encontrado")
    raise_if (below_borrowed input.total_copies listed.book)
        (business_rule "total_copies não pode ser menor que livros emprestados")
    modify (Repository.update (edited input listed.book))
    modify (Cache.delete (book_detail_key book_id))
    modify (Cache.delete_pattern "books:list*")
    pure (edited input listed.book)

  unfoldable pub delete_book : String → Exec State (Unit {0})
  delete_book book_id = do
    found ← gets (Repository.find_by_id book_id)
    listed ← or_raise found (not_found "Livro não encontrado")
    modify (Repository.soft_delete listed.book)
    modify (Cache.delete (book_detail_key book_id))
    modify (Cache.delete_pattern "books:list*")
