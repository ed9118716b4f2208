-- ===== src/Authors/Service.antt =====
-- app/domain/authors: `AuthorService` and its schemas.
use library_api.Prelude.{ℕ, String, Bool, Option, none, some, List, ◌==◌, if◌then◌else◌}
use library_api.Errors.{not_found}
use library_api.Datetime.{Datetime}
use library_api.Models.Author.{Author}
use library_api.Responses.{Page}
use library_api.Exec.{Exec, pure, run, gets, modify, or_raise, ◌>>=◌, ◌>>◌}
use library_api.External.{External}
use library_api.World.{State, utcnow, new_id}
use library_api.Cache
use library_api.Authors.Repository

pub record CreateAuthor : Type 0 where
  pub name : String
  pub biography : Option String

-- A field that the client did not set is `none`; one that it set to null is `some none`.
pub record UpdateAuthor : Type 0 where
  pub name : Option (Option String)
  pub biography : Option (Option String)

-- What the response model keeps of an author.
pub record AuthorResponse : Type 0 where
  pub id : String
  pub name : String
  pub biography : Option String
  pub created_at : Datetime

abbrev pub author_response : Author → AuthorResponse
author_response a = record {
  id = a.id;
  name = a.name;
  biography = a.biography;
  created_at = a.created_at;
}

-- `if "name" in data.model_fields_set and data.name`
abbrev pub renamed : Option (Option String) → Author → Author
renamed none author = author
renamed (some none) author = author
renamed (some (some name)) author = if name == "" then author else record author { name = name }

-- `if "biography" in data.model_fields_set`
abbrev pub with_biography : Option (Option String) → Author → Author
with_biography none author = author
with_biography (some biography) author = record author { biography = biography }

abbrev pub edited : UpdateAuthor → Author → Author
edited input author = with_biography input.biography (renamed input.name author)

module _ ⦃ext : External⦄ where
  -- The deletions after a change of an author.
  abbrev pub invalidate_books : State → State
  invalidate_books w = Cache.delete_pattern "books:list*" (Cache.delete_pattern "book:*" w)

  unfoldable pub create_author : CreateAuthor → Exec State Author
  create_author input = do
    id ← run new_id
    created_at ← run utcnow
    let author : Author = record {
      id = id;
      name = input.name;
      biography = input.biography;
      created_at = created_at;
      is_active = Bool.true;
    }
    modify (Repository.create author)
    pure author

  unfoldable pub get_author : String → Exec State Author
  get_author author_id = do
    found ← gets (Repository.find_by_id author_id)
    or_raise found (not_found "Autor não encontrado")

  unfoldable pub list_authors_paginated : (List Author → List Author) → ℕ → ℕ → State → Page Author
  unfolding Repository.list_authors_paginated
  list_authors_paginated oldest_first page size w =
      let (authors, total) = Repository.list_authors_paginated oldest_first page size w in
      record { items = authors; total = total; page = page; size = size }

  unfoldable pub delete_author : String → Exec State (Unit {0})
  unfolding Repository.soft_delete
  delete_author author_id = do
    found ← gets (Repository.find_by_id_with_books author_id)
    author ← or_raise found (not_found "Autor não encontrado")
    modify (Repository.soft_delete author)
    modify invalidate_books

  unfoldable pub update_author : String → UpdateAuthor → Exec State Author
  update_author author_id input = do
    found ← gets (Repository.find_by_id author_id)
    author ← or_raise found (not_found "Autor não encontrado")
    modify (Repository.update (edited input author))
    modify invalidate_books
    pure (edited input author)
