-- ===== src/Books/Repository.antt =====
-- app/domain/books/repositories: `BookRepository`.
use Prim.Native.String.{◌++◌}
use library_api.Prelude.{
  ℕ, ◌*◌, ◌-◌, String, Bool, true, false, ◌&&◌, Option, none, some, List, [], ◌∷◌, ◌==◌,
  if◌then◌else◌, select, count, take, drop,
}
use library_api.Prelude.Int.{pos, ltb_ℤ, leb_ℤ}
use library_api.Models.Author.{Author, author_row}
use library_api.Models.Book.{Book, book_row}
use library_api.Table.{find_by_key, insert, save}
use library_api.External.{External}
use library_api.World.{State, with_books}
use library_api.Authors.Repository as Authors

-- `WHERE isbn = k`; the column is unique.
unfoldable pub with_isbn : String → List Book → Option Book
with_isbn isbn [] = none
with_isbn isbn (b ∷ l) = if b.isbn == isbn then some b else with_isbn isbn l

-- A book whose copies are all out, or not.
abbrev pub availability_filter : Option Bool → Book → Bool
availability_filter none b = true
availability_filter (some true) b = ltb_ℤ (pos 0) b.available_copies
availability_filter (some false) b =
    leb_ℤ b.available_copies (pos 0) && leb_ℤ (pos 0) b.available_copies

abbrev pub category_filter : Option String → Book → Bool
category_filter none b = true
category_filter (some c) b = if c == "" then true else b.category == c

-- A book with the author that `joinedload` brings.
pub record Listed : Type 0 where
  pub book : Book
  pub author : Author

module _ ⦃ext : External⦄ where
  abbrev pub create : Book → State → State
  create book w = with_books w (insert book w.books)

  abbrev pub find_by_isbn : String → State → Option Book
  find_by_isbn isbn w = with_isbn isbn w.books

  -- `BookModel.author.has(AuthorModel.is_active)`, and the author.
  abbrev pub with_author : State → Book → Option Listed
  with_author w book = elim (Authors.find_by_id book.author_id w) [
    | none ↦ none
    | some author ↦ some (record { book = book; author = author })
  ]

  abbrev pub when_active : State → Option Book → Option Listed
  when_active w none = none
  when_active w (some book) = if book.is_active then with_author w book else none

  -- `find_by_id`: an active book of an active author.
  abbrev pub find_by_id : String → State → Option Listed
  find_by_id book_id w = when_active w (find_by_key book_id w.books)

  abbrev pub text_matches : Option String → String → Bool
  text_matches none t = true
  text_matches (some p) t = if p == "" then true else ext.ilike t ("%" ++ (p ++ "%"))

  unfoldable pub passes :
      Option String → Option String → Option String → Option Bool → Listed → Bool
  passes title category author available l =
      text_matches title l.book.title
      && (category_filter category l.book
          && (text_matches author l.author.name && availability_filter available l.book))

  -- The active books of active authors, with their authors.
  unfoldable pub catalogue : State → List Book → List Listed
  catalogue w [] = []
  catalogue w (b ∷ l) =
      let rest = catalogue w l in elim (when_active w (some b)) [ none ↦ rest | some x ↦ x ∷ rest ]

  unfoldable pub list_books_paginated :
      ℕ → ℕ → Option String → Option String → Option String → Option Bool → State → List Listed × ℕ
  unfolding catalogue passes
  list_books_paginated page size title category author available w =
      let p = passes title category author available in
      let books = catalogue w w.books in
      (take size (drop ((page - 1) * size) (select p books)), count p books)

  abbrev pub update : Book → State → State
  update book w = with_books w (save book w.books)

  abbrev pub soft_delete : Book → State → State
  soft_delete book w = with_books w (save (record book { is_active = false }) w.books)
