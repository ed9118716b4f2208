-- ===== src/Authors/Controller.antt =====
-- app/domain/authors/controllers/author_controller.py.
use library_api.Prelude.{String, List}
use library_api.Prelude.Int.{ℤ}
use library_api.Models.Author.{Author}
use library_api.Responses.{Page}
use library_api.Exec.{Exec, gets, ◌>>=◌, ◌>>◌}
use library_api.External.{External}
use library_api.World.{State}
use library_api.Security.{get_current_admin}
use library_api.Pagination.{page_query}
use library_api.Authors.Service.{CreateAuthor, UpdateAuthor}
use library_api.Authors.Service as Authors

module _ ⦃ext : External⦄ where
  abbrev pub create_author : ext.Token → CreateAuthor → Exec State Author
  create_author token input = get_current_admin token >> Authors.create_author input

  unfoldable pub list_authors : (List Author → List Author) → ℤ → ℤ → Exec State (Page Author)
  unfolding Authors.list_authors_paginated
  list_authors oldest_first page size = do
    query ← page_query page size
    gets (Authors.list_authors_paginated oldest_first query.0 query.1)

  abbrev pub get_author : String → Exec State Author
  get_author author_id = Authors.get_author author_id

  abbrev pub update_author : ext.Token → String → UpdateAuthor → Exec State Author
  update_author token author_id input =
      get_current_admin token >> Authors.update_author author_id input

  abbrev pub delete_author : ext.Token → String → Exec State (Unit {0})
  delete_author token author_id = get_current_admin token >> Authors.delete_author author_id
