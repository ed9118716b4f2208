-- ===== src/Migrations/Metadata.antt =====
-- app/domain/*/models: the tables that the models declare to SQLAlchemy (`Base.metadata`), to
-- compare with those that the migrations make. `Mapped[T]` without `| None` is not nullable, and an
-- `Enum` takes the name of its class in lower case.
use library_api.Prelude.{String, true, false, List, [], ◌∷◌}
use library_api.Migrations.Schema.{
  SqlType, text, date_time, integer, decimal, enum, Table, EnumType,
}
use library_api.Migrations.Operations.{column, foreign_key}
use library_api.Migrations.Tables.{table, string, identifier}

unfoldable pub user_model : Table
user_model =
    table "users"
      (column "id" identifier false
        ∷ column "name" (string 255) false
        ∷ column "email" (string 255) false
        ∷ column "password" (string 255) false
        ∷ column "created_at" date_time false
        ∷ column "is_active" SqlType.boolean false
        ∷ column "role" (string 20) false
        ∷ [])
      ("email" ∷ []) []

unfoldable pub author_model : Table
author_model =
    table "authors"
      (column "id" identifier false
        ∷ column "name" (string 255) false
        ∷ column "biography" identifier true
        ∷ column "created_at" date_time false
        ∷ column "is_active" SqlType.boolean false
        ∷ [])
      [] []

unfoldable pub book_model : Table
book_model =
    table "books"
      (column "id" identifier false
        ∷ column "title" (string 255) false
        ∷ column "isbn" (string 50) false
        ∷ column "category" (string 100) false
        ∷ column "total_copies" integer false
        ∷ column "available_copies" integer false
        ∷ column "author_id" identifier false
        ∷ column "created_at" date_time false
        ∷ column "is_active" SqlType.boolean false
        ∷ [])
      ("isbn" ∷ []) (foreign_key "author_id" "authors" "id" ∷ [])

unfoldable pub loan_model : Table
loan_model =
    table "loans"
      (column "id" identifier false
        ∷ column "user_id" identifier false
        ∷ column "book_id" identifier false
        ∷ column "loan_date" date_time false
        ∷ column "due_date" date_time false
        ∷ column "returned_at" date_time true
        ∷ column "cancelled_at" date_time true
        ∷ column "status" (enum "loanstatus") false
        ∷ column "fine_amount" (decimal 10 2) false
        ∷ column "fine_paid_at" date_time true
        ∷ column "fine_paid_amount" (decimal 10 2) false
        ∷ column "renewal_count" integer false
        ∷ column "created_at" date_time false
        ∷ [])
      [] (foreign_key "user_id" "users" "id" ∷ foreign_key "book_id" "books" "id" ∷ [])

unfoldable pub notification_model : Table
notification_model =
    table "notifications"
      (column "id" identifier false
        ∷ column "user_id" identifier false
        ∷ column "loan_id" identifier true
        ∷ column "reservation_id" identifier true
        ∷ column "type" (enum "notificationtype") false
        ∷ column "status" (enum "notificationstatus") false
        ∷ column "channel" (string 50) false
        ∷ column "message" text false
        ∷ column "sent_at" date_time true
        ∷ column "created_at" date_time false
        ∷ [])
      []
      (foreign_key "user_id" "users" "id"
        ∷ foreign_key "loan_id" "loans" "id"
        ∷ foreign_key "reservation_id" "reservations" "id"
        ∷ [])

unfoldable pub reservation_model : Table
reservation_model =
    table "reservations"
      (column "id" identifier false
        ∷ column "user_id" identifier false
        ∷ column "book_id" identifier false
        ∷ column "status" (enum "reservationstatus") false
        ∷ column "created_at" date_time false
        ∷ column "cancelled_at" date_time true
        ∷ column "fulfilled_at" date_time true
        ∷ [])
      [] (foreign_key "user_id" "users" "id" ∷ foreign_key "book_id" "books" "id" ∷ [])

abbrev labels : String → List String → EnumType
labels n l = record { name = n; labels = l }

unfoldable pub loan_status : EnumType
loan_status = labels "loanstatus" ("ACTIVE" ∷ "RETURNED" ∷ "CANCELLED" ∷ [])

unfoldable pub notification_type : EnumType
notification_type = labels "notificationtype" (
    "LOAN_CREATED" ∷ "LOAN_RETURNED" ∷ "LOAN_CANCELLED" ∷ "LOAN_DUE_SOON" ∷ "LOAN_DUE_TODAY"
    ∷ "LOAN_OVERDUE" ∷ "RESERVATION_CREATED" ∷ "RESERVATION_CANCELLED" ∷ [])

unfoldable pub notification_status : EnumType
notification_status = labels "notificationstatus" ("SENT" ∷ "FAILED" ∷ [])

unfoldable pub reservation_status : EnumType
reservation_status = labels "reservationstatus" ("ACTIVE" ∷ "CANCELLED" ∷ "FULFILLED" ∷ [])
