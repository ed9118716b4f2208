-- ===== src/Models/Author.antt =====
-- app/domain/authors: `AuthorModel`.
use library_api.Prelude.{String, Bool, Option}
use library_api.Datetime.{Datetime}
use library_api.Table.{Row}

pub record Author : Type 0 where
  pub id : String
  pub name : String
  pub biography : Option String
  pub created_at : Datetime
  pub is_active : Bool

instance abbrev pub author_row : Row Author
author_row = record { id_of = λ a. a.id }
