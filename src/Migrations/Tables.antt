-- ===== src/Migrations/Tables.antt =====
-- alembic/versions: the tables, as the revisions create them.
use library_api.Prelude.{ℕ, String, true, false, none, some, List, [], ◌∷◌}
use library_api.Migrations.Schema.{
  SqlType, varchar, text, date_time, integer, decimal, enum, Column, Table, ForeignKey,
}
use library_api.Migrations.Operations.{column, foreign_key}

-- A new table: its primary key is `id` in every revision.
abbrev pub table : String → List Column → List String → List ForeignKey → Table
table n columns unique keys = record {
  name = n;
  columns = columns;
  primary_key = "id";
  unique = unique;
  foreign_keys = keys;
  rows = [];
}

abbrev pub string : ℕ → SqlType
string n = varchar (some n)

abbrev pub identifier : SqlType
identifier = varchar none

abbrev pub users : Table
users =
    table "users"
      (column "id" identifier false
        ∷ column "name" (string 255) false
        ∷ column "email" (string 255) false
        ∷ column "password" (string 255) false
        ∷ column "created_at" date_time false
        ∷ [])
      ("email" ∷ []) []

abbrev pub authors : Table
authors =
    table "authors"
      (column "id" identifier false
        ∷ column "name" (string 255) false
        ∷ column "biography" identifier true
        ∷ column "created_at" date_time false
        ∷ [])
      [] []

abbrev pub books : Table
books =
    table "books"
      (column "id" identifier false
        ∷ column "title" (string 255) false
        ∷ column "isbn" (string 50) false
        ∷ column "category" (string 100) false
        ∷ column "total_copies" integer false
        ∷ column "available_copies" integer false
        ∷ column "author_id" identifier false
        ∷ column "created_at" date_time false
        ∷ [])
      ("isbn" ∷ []) (foreign_key "author_id" "authors" "id" ∷ [])

abbrev pub loans : Table
loans =
    table "loans"
      (column "id" identifier false
        ∷ column "user_id" identifier false
        ∷ column "book_id" identifier false
        ∷ column "loan_date" date_time false
        ∷ column "due_date" date_time false
        ∷ column "returned_at" date_time true
        ∷ column "cancelled_at" date_time true
        ∷ column "status" (enum "loanstatus") false
        ∷ column "fine_amount" (decimal 10 2) false
        ∷ column "renewal_count" integer false
        ∷ column "created_at" date_time false
        ∷ [])
      [] (foreign_key "book_id" "books" "id" ∷ foreign_key "user_id" "users" "id" ∷ [])

abbrev pub notifications : Table
notifications =
    table "notifications"
      (column "id" identifier false
        ∷ column "user_id" identifier false
        ∷ column "loan_id" identifier true
        ∷ column "type" (enum "notificationtype") false
        ∷ column "status" (enum "notificationstatus") false
        ∷ column "channel" (string 50) false
        ∷ column "message" text false
        ∷ column "sent_at" date_time true
        ∷ column "created_at" date_time false
        ∷ [])
      [] (foreign_key "loan_id" "loans" "id" ∷ foreign_key "user_id" "users" "id" ∷ [])

abbrev pub reservations : Table
reservations =
    table "reservations"
      (column "id" identifier false
        ∷ column "user_id" identifier false
        ∷ column "book_id" identifier false
        ∷ column "status" (enum "reservationstatus") false
        ∷ column "created_at" date_time false
        ∷ column "cancelled_at" date_time true
        ∷ column "fulfilled_at" date_time true
        ∷ [])
      [] (foreign_key "book_id" "books" "id" ∷ foreign_key "user_id" "users" "id" ∷ [])

abbrev pub reservation_key : ForeignKey
reservation_key = record (foreign_key "reservation_id" "reservations" "id") {
  constraint = some "fk_notifications_reservation_id_reservations";
}
