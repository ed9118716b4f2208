-- ===== src/Migrations/Restored.antt =====
-- alembic/versions: the upgrades that create tables or change a table twice, undone.
use library_api.Migrations.RoundTrip.{
  drop_column-drop_default, drop_column-add_column, any-append, drop_foreign_key-constrain,
}
use library_api.Migrations.Operations.{
  alter_table, create_foreign_key, create_table, named, refers, drop_table, add_column,
  drop_default, drop_column, add_value, create_type, column, drop_foreign_key,
}
use library_api.Prelude.{String, ◌≡◌, refl, sym, ◌∙◌, true, false, List, [], ◌∷◌, arith, ◌++◌, ap}
use library_api.Migrations.Schema.{Table, Database, ok, ◌>>◌, find_table, any}
use library_api.Migrations.Tables.{notifications, authors, books, reservation_key, identifier}
use library_api.Migrations.Versions.{
  create_authors_and_books, add_fine_paid_amount_to_loans, add_reservation_notifications, downgrade,
  upgrade_reservation_notices, upgrade_fine_paid_amount, upgrade_catalogue, upgrade_notifications,
}
use library_api.Migrations.Kept.{bind-eq-ok}
use library_api.Migrations.Changes.{
  alter_table-Altered, drop_table-create_table, alter_table-Altered_at, alter_table_returns,
}
use library_api.Migrations.Undo.{
  AllTidy, Restores, add_column-KeepsName, drop_default-KeepsName, Altered-found, restored,
  drop_column-KeepsName, Altered-trans, constrain-KeepsName,
}

-- No foreign key refers to a table that is not there.
abbrev pub IsClosed : Database → Type 0
IsClosed d = (n : String) → any (named n) d.tables ≡ false → any (refers n) d.tables ≡ false

create_table-fresh :
    (t : Table) (d d' : Database)
    → create_table t d ≡ ok d'
    → (any (named t.name) d.tables ≡ false)
      × (d'.tables ≡ d.tables ++ t ∷ [])
      × (d.enums ≡ d'.enums)
unfolding create_table
create_table-fresh t d d' e = ground arith

add_value-tables : (n l : String) (d d' : Database) → add_value n l d ≡ ok d' → d'.tables ≡ d.tables
unfolding add_value
add_value-tables n l d d' e = ground arith

create_type-tables :
    (n : String) (l : List String) (d d' : Database)
    → create_type n l d ≡ ok d'
    → d'.tables ≡ d.tables
unfolding create_type
create_type-tables n l d d' e = ground arith

-- What is there after a table was created with the types of its columns.
pub created_dropped :
    (t : Table) (d d1 d' : Database)
    → IsClosed d
    → d1.tables ≡ d.tables
    → create_table t d1 ≡ ok d'
    → Restores (drop_table t.name) d' d
created_dropped t d d1 d' closed same e =
    let (fresh, _, types) = create_table-fresh t d1 d' e in
    let unused : any (refers t.name) d1.tables ≡ false =
      rw same (closed t.name (rw same at fresh)) in
    (d1, drop_table-create_table t d1 d' unused e, λ m. rw same refl, types)

pub typed_restored :
    (n : String) (labels : List String) (t : Table) (d d' : Database)
    → IsClosed d
    → (create_type n labels >> create_table t) d ≡ ok d'
    → Restores (drop_table t.name) d' d
typed_restored n labels t d d' closed e =
    let (d1, s1, s2) = bind-eq-ok (create_type n labels d) (create_table t) e in
    created_dropped t d d1 d' closed (create_type-tables n labels d d1 s1) s2

pub notifications_restored :
    (d d' : Database)
    → IsClosed d
    → upgrade_notifications d ≡ ok d'
    → Restores (drop_table "notifications") d' d
unfolding upgrade_notifications
notifications_restored d d' closed e =
    let (d2, e2, s3) = bind-eq-ok _ (create_table notifications) e in
    let (d1, s1, s2) =
      bind-eq-ok _ (create_type "notificationstatus" ("SENT" ∷ "FAILED" ∷ [])) e2 in
    created_dropped notifications d d2 d' closed
      (create_type-tables _ _ d1 d2 s2 ∙ create_type-tables _ _ d d1 s1) s3

pub catalogue_restored :
    (d d' : Database)
    → IsClosed d
    → upgrade_catalogue d ≡ ok d'
    → Restores (downgrade create_authors_and_books) d' d
unfolding upgrade_catalogue downgrade
catalogue_restored d d' closed e =
    let (d1, s1, s2) = bind-eq-ok (create_table authors d) (create_table books) e in
    let (fresh_a, tables, types_a) = create_table-fresh authors d d1 s1 in
    let (fresh_b, _, types_b) = create_table-fresh books d1 d' s2 in
    let before = any-append (named "books") d.tables authors in
    let unused : any (refers "books") d1.tables ≡ false =
      rw (tables, any-append (refers "books") d.tables authors)
        (ground (arith, closed "books", rw tables at fresh_b, before)) in
    (
      d,
      rw (drop_table-create_table books d1 d' unused s2)
          (drop_table-create_table authors d d1 (closed "authors" fresh_a) s1),
      λ m. refl,
      types_a ∙ types_b,
    )

pub fine_paid_amount_restored :
    (d d' : Database)
    → AllTidy d
    → upgrade_fine_paid_amount d ≡ ok d'
    → Restores (downgrade add_fine_paid_amount_to_loans) d' d
unfolding upgrade_fine_paid_amount downgrade
fine_paid_amount_restored d d' tidy e =
    let (d1, s1, s2) = bind-eq-ok _ (alter_table "loans" (drop_default "fine_paid_amount")) e in
    let (t0, t1, f0, m1, o1) = alter_table-Altered "loans" _ d (add_column-KeepsName _) d1 s1 in
    let (t2, m2, o2) =
      alter_table-Altered_at "loans" _ d1 (drop_default-KeepsName _) d' t1
        (Altered-found "loans" o1) s2 in
    restored "loans" (drop_column "fine_paid_amount") t0 t2 d d' (drop_column-KeepsName _) f0
      (Altered-trans "loans" o1 o2)
      (drop_column-drop_default "fine_paid_amount" t1 t2 m2
        ∙ drop_column-add_column _ t0 t1 (tidy "loans" t0 f0) m1)

AllTidy-tables : (d e : Database) → e.tables ≡ d.tables → AllTidy d → AllTidy e
AllTidy-tables d e same tidy n t found = tidy n t (ap (find_table n) (sym same) ∙ found)

key_restored :
    (d2 d3 d' : Database)
    → AllTidy d2
    → alter_table "notifications" (add_column (column "reservation_id" identifier true)) d2 ≡ ok d3
    → create_foreign_key reservation_key "notifications" d3 ≡ ok d'
    → Restores (downgrade add_reservation_notifications) d' d2
unfolding create_foreign_key downgrade
key_restored d2 d3 d' tidy a b =
    let name : String = "fk_notifications_reservation_id_reservations" in
    let (t0, t1, f0, m1, o1) =
      alter_table-Altered "notifications" _ d2 (add_column-KeepsName _) d3 a in
    let (t2, m2, o2) =
      alter_table-Altered_at "notifications" _ d3
        (constrain-KeepsName reservation_key (find_table "reservations" d3.tables)) d' t1
        (Altered-found "notifications" o1) b in
    let (d4, e4, o3) =
      alter_table_returns "notifications" (drop_foreign_key name) d' t2 t1
        (Altered-found "notifications" o2)
        (drop_foreign_key-constrain name reservation_key (find_table "reservations" d3.tables) t1 t2
          refl m2)
        (sym
          (constrain-KeepsName reservation_key (find_table "reservations" d3.tables) t1 t2 m2)) in
    let (d5, e5, same, types) =
      restored "notifications" (drop_column "reservation_id") t0 t1 d2 d4 (drop_column-KeepsName _)
        f0 (Altered-trans "notifications" o1 (Altered-trans "notifications" o2 o3))
        (drop_column-add_column _ t0 t1 (tidy "notifications" t0 f0) m1) in
    (d5, rw e4 e5, same, types ∙ o3.types)

pub reservation_notices_restored :
    (d d' : Database)
    → AllTidy d
    → upgrade_reservation_notices d ≡ ok d'
    → Restores (downgrade add_reservation_notifications) d' d
unfolding upgrade_reservation_notices downgrade
reservation_notices_restored d d' tidy e =
    let (d3, e3, s4) = bind-eq-ok _ (create_foreign_key reservation_key "notifications") e in
    let (d2, e2, s3) =
      bind-eq-ok _
        (alter_table "notifications" (add_column (column "reservation_id" identifier true))) e3 in
    let (d1, s1, s2) = bind-eq-ok _ (add_value "notificationtype" "RESERVATION_CANCELLED") e2 in
    let same = add_value-tables _ _ d1 d2 s2 ∙ add_value-tables _ _ d d1 s1 in
    let (d'', done, back, types) = key_restored d2 d3 d' (AllTidy-tables d d2 same tidy) s3 s4 in
    (d'', done, λ m. back m ∙ ap (find_table m) same, types)
