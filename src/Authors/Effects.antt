-- ===== src/Authors/Effects.antt =====
-- How the methods of the author service that write end.
use library_api.Prelude.{
  ◌≤◌, String, ◌≡◌, refl, true, false, some, arith, Option-cases, inl, inr, map,
}
use library_api.Models.Author.{Author, author_row}
use library_api.Models.Book.{book_row}
use library_api.Table.{insert, save}
use library_api.External.{External}
use library_api.World.{State}
use library_api.Effects.{Ends, Unchanged}
use library_api.Authors.Repository
use library_api.Authors.Repository.{deactivated}
use library_api.Authors.Service.{
  CreateAuthor, UpdateAuthor, create_author, update_author, delete_author, edited, invalidate_books,
}

module _ ⦃ext : External⦄ where
  -- The tables that the author service leaves alone.
  pub record Untouched (w w' : State) : Type 0 where
    pub users : w'.users ≡ w.users
    pub loans : w'.loans ≡ w.loans
    pub reservations : w'.reservations ≡ w.reservations
    pub later : w.identifiers ≤ w'.identifiers

  abbrev pub new_author : CreateAuthor → State → Author
  new_author input w = record {
    id = ext.uuid w.identifiers;
    name = input.name;
    biography = input.biography;
    created_at = ext.clock w.readings;
    is_active = true;
  }

  pub record AuthorCreated (input : CreateAuthor) (w w' : State) : Type 0 where
    pub authors : w'.authors ≡ insert (new_author input w) w.authors
    pub books : w'.books ≡ w.books
    pub cache : w'.cache ≡ w.cache
    pub rest : Untouched w w'

  pub create_author-Ends :
      (input : CreateAuthor) (w : State)
      → Ends (λ r. AuthorCreated input w) (Unchanged w) (create_author input w)
  unfolding create_author
  create_author-Ends input w = record {
    authors = refl;
    books = refl;
    cache = refl;
    rest = ground arith;
  }

  pub record AuthorUpdated (author_id : String) (input : UpdateAuthor) (w w' : State) : Type 0 where
    pub author : Author
    pub found : Repository.find_by_id author_id w ≡ some author
    pub authors : w'.authors ≡ save (edited input author) w.authors
    pub books : w'.books ≡ w.books
    pub cache : w'.cache ≡ (invalidate_books w).cache
    pub rest : Untouched w w'

  pub update_author-Ends :
      (author_id : String) (input : UpdateAuthor) (w : State)
      → Ends (λ r. AuthorUpdated author_id input w) (Unchanged w) (update_author author_id input w)
  unfolding update_author
  update_author-Ends author_id input w = elim (Option-cases (Repository.find_by_id author_id w)) [
    | inl no_author ↦ ground arith
    | inr (author, found) ↦ rw found (record {
      author = author;
      found = found;
      authors = refl;
      books = refl;
      cache = refl;
      rest = ground arith;
    })
  ]

  pub record AuthorDeleted (author_id : String) (w w' : State) : Type 0 where
    pub author : Author
    pub found : Repository.find_by_id author_id w ≡ some author
    pub authors : w'.authors ≡ save (record author { is_active = false }) w.authors
    pub books : w'.books ≡ map (deactivated author.id) w.books
    pub cache : w'.cache ≡ (invalidate_books w).cache
    pub rest : Untouched w w'

  pub delete_author-Ends :
      (author_id : String) (w : State)
      → Ends (λ r. AuthorDeleted author_id w) (Unchanged w) (delete_author author_id w)
  unfolding delete_author
  delete_author-Ends author_id w = elim (Option-cases (Repository.find_by_id author_id w)) [
    | inl no_author ↦ ground arith
    | inr (author, found) ↦ rw found (record {
      author = author;
      found = found;
      authors = refl;
      books = refl;
      cache = refl;
      rest = ground arith;
    })
  ]
