-- ===== src/Authors/Repository.antt =====
-- app/domain/authors/repositories: `AuthorRepository`.
use library_api.Prelude.{
  ℕ, ◌*◌, ◌-◌, String, Bool, false, Option, List, map, ◌==◌, if◌then◌else◌, select, count, take,
  drop,
}
use library_api.Models.Author.{Author, author_row}
use library_api.Models.Book.{Book, book_row}
use library_api.Table.{find_where, insert, save}
use library_api.External.{External}
use library_api.World.{State, with_authors, with_books}

abbrev pub is_active : Author → Bool
is_active a = a.is_active

-- A book of the author that `soft_delete` reaches through `author.books`; the others stay.
abbrev pub deactivated : String → Book → Book
deactivated author_id book =
    if book.author_id == author_id
    then (if book.is_active then record book { is_active = false } else book)
    else book

module _ ⦃ext : External⦄ where
  abbrev pub create : Author → State → State
  create author w = with_authors w (insert author w.authors)

  abbrev pub find_by_id : String → State → Option Author
  find_by_id author_id w = find_where author_id is_active w.authors

  -- The books come with the row; `soft_delete` takes them from the table.
  abbrev pub find_by_id_with_books : String → State → Option Author
  find_by_id_with_books author_id w = find_where author_id is_active w.authors

  -- `ORDER BY created_at` is the database's.
  unfoldable pub list_authors_paginated :
      (List Author → List Author) → ℕ → ℕ → State → List Author × ℕ
  list_authors_paginated oldest_first page size w = (
    take size (drop ((page - 1) * size) (oldest_first (select is_active w.authors))),
    count is_active w.authors,
  )

  unfoldable pub soft_delete : Author → State → State
  soft_delete author w =
      with_books (with_authors w (save (record author { is_active = false }) w.authors))
        (map (deactivated author.id) w.books)

  abbrev pub update : Author → State → State
  update author w = with_authors w (save author w.authors)
