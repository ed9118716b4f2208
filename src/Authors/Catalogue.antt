-- ===== src/Authors/Catalogue.antt =====
-- What `get_book` answers after a change of an author, whatever the cache held before.
use library_api.Prelude.{
  String, ◌≡◌, refl, true, none, some, List, [], ◌∷◌, Option, arith, eq_iff, eq_refl, map,
}
use library_api.Errors.{domain, not_found}
use library_api.Models.Author.{Author, author_row}
use library_api.Models.Book.{Book, book_row}
use library_api.Responses.{Document}
use library_api.Table.{find_by_key, find_by_key-save, find_where_self}
use library_api.Exec.{ok, err}
use library_api.External.{External}
use library_api.World.{State}
use library_api.Effects.{Ends-ok, Unchanged}
use library_api.Cache.{cached, read_through}
use library_api.Cache.Keys.{book_detail_key}
use library_api.Cache.Laws.{cached-delete_pattern}
use library_api.Authors.Repository
use library_api.Authors.Repository.{deactivated}
use library_api.Authors.Service.{
  UpdateAuthor, update_author, delete_author, edited, invalidate_books,
}
use library_api.Authors.Effects.{
  AuthorUpdated, AuthorDeleted, update_author-Ends, delete_author-Ends,
}
use library_api.Books.Repository as Books
use library_api.Books.Service.{get_book, serialize_book}

abbrev pub option_map : {A B : Type 0} → (A → B) → Option A → Option B
option_map f none = none
option_map f (some x) = some (f x)

-- Deactivation changes no key.
pub find_by_key-map-deactivated :
    (author_id k : String) (l : List Book)
    → find_by_key k (map (deactivated author_id) l)
      ≡ option_map (deactivated author_id) (find_by_key k l)
unfolding find_by_key
find_by_key-map-deactivated author_id k [] = refl
find_by_key-map-deactivated author_id k (b ∷ l) =
    ground (arith, find_by_key-map-deactivated author_id k l)

edited_kept :
    (input : UpdateAuthor) (a : Author)
    → ((edited input a).id ≡ a.id) × ((edited input a).is_active ≡ a.is_active)
edited_kept input a = ground arith

module _ ⦃ext : External⦄ where
  get_book_unlisted :
      (book_id : String) (w : State)
      → cached w.cache (book_detail_key book_id) ≡ none
      → Books.find_by_id book_id w ≡ none
      → (get_book book_id w).0 ≡ err (domain (not_found "Livro não encontrado"))
  unfolding get_book read_through
  get_book_unlisted book_id w miss unlisted = ground (arith, miss, unlisted)

  get_book_listed :
      (book_id : String) (w : State) (l : Books.Listed)
      → cached w.cache (book_detail_key book_id) ≡ none
      → Books.find_by_id book_id w ≡ some l
      → (get_book book_id w).0 ≡ ok (Document.book (serialize_book l))
  unfolding get_book read_through
  get_book_listed book_id w l miss listed = ground (arith, miss, listed)

module _ ⦃ext : External⦄ (plain : ext.is_plain "book:" ≡ true) where
  book_gone :
      (book_id : String) (w : State)
      → cached (invalidate_books w).cache (book_detail_key book_id) ≡ none
  book_gone book_id w =
      rw (cached-delete_pattern, cached-delete_pattern)
        (ground (arith, ext.matches-star "book:" book_id plain))

  -- Once `delete_author` has returned, `get_book` answers "not found" for every book of the author,
  -- also if the book was cached.
  pub get_book-delete_author :
      (author_id book_id : String) (book : Book) (w : State)
      → find_by_key book_id w.books ≡ some book
      → book.author_id ≡ author_id
      → (delete_author author_id w).0 ≡ ok tt
      → (get_book book_id (delete_author author_id w).1).0
        ≡ err (domain (not_found "Livro não encontrado"))
  get_book-delete_author author_id book_id book w found of_author deleted =
      let w' = (delete_author author_id w).1 in
      let (_, p) =
        Ends-ok (λ r. AuthorDeleted author_id w) (Unchanged w) (delete_author author_id w)
          (delete_author-Ends author_id w) deleted in
      let (row, _, key) = find_where_self author_id Repository.is_active w.authors p.found in
      let miss : cached w'.cache (book_detail_key book_id) ≡ none =
        rw p.cache (book_gone book_id w) in
      let hidden : find_by_key book_id w'.books ≡ some (deactivated p.author.id book) =
        rw (p.books, find_by_key-map-deactivated p.author.id book_id w.books, found) refl in
      let unlisted : Books.find_by_id book_id w' ≡ none =
        rw hidden (ground (arith, key, of_author, eq_iff book.author_id p.author.id)) in
      get_book_unlisted book_id w' miss unlisted

  -- Once `update_author` has returned, `get_book` answers for an active book of the author with the
  -- author as edited, also if the book was cached with the author of before.
  pub get_book-update_author :
      (author_id book_id : String) (input : UpdateAuthor) (book : Book) (author r : Author)
      (w : State)
      → find_by_key book_id w.books ≡ some book
      → book.author_id ≡ author_id
      → book.is_active ≡ true
      → Repository.find_by_id author_id w ≡ some author
      → (update_author author_id input w).0 ≡ ok r
      → (get_book book_id (update_author author_id input w).1).0
        ≡ ok (Document.book (serialize_book (record { book = book; author = edited input author })))
  get_book-update_author author_id book_id input book author r w found of_author active there
        updated =
      let w' = (update_author author_id input w).1 in
      let (_, p) =
        Ends-ok (λ r. AuthorUpdated author_id input w) (Unchanged w)
          (update_author author_id input w) (update_author-Ends author_id input w) updated in
      let (row, on, key) = find_where_self author_id Repository.is_active w.authors p.found in
      let same : p.author ≡ author = ground (arith, p.found, there) in
      let miss : cached w'.cache (book_detail_key book_id) ≡ none =
        rw p.cache (book_gone book_id w) in
      let kept : find_by_key book_id w'.books ≡ some book = rw p.books found in
      let (same_id, same_flag) = edited_kept input p.author in
      let old_row : find_by_key (edited input p.author).id w.authors ≡ some p.author =
        rw same_id row in
      let its_author : Repository.find_by_id author_id w' ≡ some (edited input p.author) =
        rw p.authors (
          ground (
            arith,
            find_by_key-save author_id (edited input p.author) p.author w.authors old_row,
            same_id,
            same_flag,
            key,
            on,
            eq_refl author_id,
          )) in
      get_book_listed book_id w' (record { book = book; author = edited input author }) miss
        (ground (arith, kept, active, of_author, its_author, same))
