-- ===== src/Models/Book.antt =====
-- app/domain/books: `BookModel`. The two counts are signed, as Python's and PostgreSQL's integers
-- are.
use library_api.Prelude.{String, Bool}
use library_api.Prelude.Int.{ℤ}
use library_api.Datetime.{Datetime}
use library_api.Table.{Row}

pub record Book : Type 0 where
  pub id : String
  pub title : String
  pub isbn : String
  pub category : String
  pub total_copies : ℤ
  pub available_copies : ℤ
  pub author_id : String
  pub created_at : Datetime
  pub is_active : Bool

instance abbrev pub book_row : Row Book
book_row = record { id_of = λ b. b.id }
