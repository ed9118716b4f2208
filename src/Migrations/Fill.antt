-- ===== src/Migrations/Fill.antt =====
-- alembic/versions/7c0e9f3e1d8d_add_is_active_to_users.py and
-- 1b8d0f4a9c32_add_is_active_to_authors_and_books.py: the flag `is_active` on rows that are there.
use library_api.Migrations.Undo.{
  add_column-KeepsName, update_where-KeepsName, set_not_null-KeepsName,
}
use library_api.Migrations.RoundTrip.{any-append_one}
use library_api.Migrations.Changes.{alter_table_returns, alter_table_refuses}
use library_api.Migrations.Versions.{
  upgrade_users_activity, is_active, set_active, upgrade_catalogue_activity,
}
use library_api.Migrations.Operations.{
  add_column, assign, update_where, every, set_not_null, has_column, widened, change_column,
}
use library_api.Prelude.{
  String, ◌≡◌, refl, ◌∙◌, true, false, List, [], ◌∷◌, ◌++◌, map, arith, if◌then◌else◌, eq_iff, some,
  ◌⊎◌, ◌≢◌, List-cases, inl, inr, ◌==◌,
}
use library_api.Migrations.Schema.{
  Cell, Database, Table, Record, ok, err, read, not_null_violation, any, find_table, is_null,
  Column, null, values,
}
use library_api.Migrations.Kept.{reads}

-- Upgrading `users` without a default needs an empty table: with a row there, it is refused.
pub upgrade_users_activity-iff_empty :
    (d : Database) (t : Table)
    → find_table "users" d.tables ≡ some t
    → has_column "is_active" t ≡ false
    → ((t.rows ≡ []) × ((d' : Database) × (upgrade_users_activity d ≡ ok d')))
      ⊎ ((t.rows ≢ []) × (upgrade_users_activity d ≡ err not_null_violation))
unfolding upgrade_users_activity
upgrade_users_activity-iff_empty d t found fresh = elim (List-cases t.rows) [
  | inl none_there ↦
      let made : add_column (is_active false) t ≡ ok (widened (is_active false) t) =
        unfold add_column in rw (fresh, none_there) refl in
      let (d', e, _) =
        alter_table_returns "users" (add_column (is_active false)) d t _ found made refl in
      inl (none_there, (d', e))
  | inr (r, l, some_there) ↦
      let refused : add_column (is_active false) t ≡ err not_null_violation =
        unfold add_column in rw (fresh, some_there) refl in
      inr (
        λ h. ground (arith, h, some_there),
        alter_table_refuses "users" (add_column (is_active false)) d t found refused,
      )
]

read-assign_self :
    (c : String) (v w : Cell) (r : Record) → read c (assign c v (r ++ (c, w) ∷ [])) ≡ v
unfolding read assign
read-assign_self c v w [] = ground (arith, eq_iff c c)
read-assign_self c v w ((k, x) ∷ r) = ground (arith, read-assign_self c v w r)

abbrev truth : Cell
truth = Cell.boolean true

-- What `set_active` makes of a new column.
filled :
    (w : Cell) (l : List Record)
    → map (read "is_active") (
        map
          (λ r. if every r then assign "is_active" truth r else r)
          (map (λ r. r ++ ("is_active", w) ∷ []) l))
      ≡ map (λ r. truth) l
filled w [] = refl
filled w (r ∷ l) = rw (read-assign_self "is_active" truth w r, filled w l) refl

none_null :
    (l k : List Record)
    → map (read "is_active") l ≡ map (λ r. truth) k
    → any (λ r. is_null (read "is_active" r)) l ≡ false
none_null [] k h = refl
none_null (r ∷ l) [] h = ground arith
none_null (r ∷ l) (s ∷ k) h = ground (arith, none_null l k)

activated :
    (t : Table)
    → has_column "is_active" t ≡ false
    → (t1 : Table) × (t2 : Table) × (t3 : Table) × (add_column (is_active true) t ≡ ok t1)
      × (set_active t1 ≡ ok t2)
      × (set_not_null "is_active" t2 ≡ ok t3)
      × (reads "is_active" t3 ≡ map (λ r. truth) t.rows)
      × (t3.name ≡ t.name)
unfolding add_column update_where set_not_null
activated t fresh =
    let t1 = widened (is_active true) t in
    let rows2 : List Record =
      map (λ r. if every r then assign "is_active" truth r else r) t1.rows in
    let t2 : Table = record t1 { rows = rows2 } in
    let t3 : Table = record t2 {
      columns = change_column "is_active" (λ k. record k { nullable = false }) t1.columns;
    } in
    let there : has_column "is_active" t1 ≡ true =
      any-append_one (λ (k : Column). k.name == "is_active") t.columns (is_active true) refl in
    let full = filled null t.rows in
    (
      t1,
      t2,
      t3,
      rw fresh refl,
      rw there refl,
      rw (there, none_null rows2 t.rows full) refl,
      full,
      refl,
    )

-- Upgrading authors and books by the flag `is_active` succeeds wherever both tables stand without
-- it, and makes every author and every book that is there active.
pub upgrade_catalogue_activity-fills :
    (d : Database) (a b : Table)
    → find_table "authors" d.tables ≡ some a
    → find_table "books" d.tables ≡ some b
    → has_column "is_active" a ≡ false
    → has_column "is_active" b ≡ false
    → (d' : Database) × (upgrade_catalogue_activity d ≡ ok d')
      × (values "authors" "is_active" d' ≡ map (λ r. Cell.boolean true) a.rows)
      × (values "books" "is_active" d' ≡ map (λ r. Cell.boolean true) b.rows)
unfolding upgrade_catalogue_activity
upgrade_catalogue_activity-fills d a b fa fb na nb =
    let (a1, a2, a3, ea1, ea2, ea3, full_a, name_a) = activated a na in
    let (b1, b2, b3, eb1, eb2, eb3, full_b, name_b) = activated b nb in
    let (d1, e1, o1) =
      alter_table_returns "authors" (add_column (is_active true)) d a a1 fa ea1
        (add_column-KeepsName _ a a1 ea1) in
    let (d2, e2, o2) =
      alter_table_returns "books" (add_column (is_active true)) d1 b b1 (o1.others "books" ∙ fb) eb1
        (add_column-KeepsName _ b b1 eb1) in
    let (d3, e3, o3) =
      alter_table_returns "authors" set_active d2 a1 a2 (o2.others "authors" ∙ o1.others "authors")
        ea2 (update_where-KeepsName _ _ _ a1 a2 ea2) in
    let (d4, e4, o4) =
      alter_table_returns "books" set_active d3 b1 b2 (o3.others "books" ∙ o2.others "books") eb2
        (update_where-KeepsName _ _ _ b1 b2 eb2) in
    let (d5, e5, o5) =
      alter_table_returns "authors" (set_not_null "is_active") d4 a2 a3
        (o4.others "authors" ∙ o3.others "authors") ea3 (set_not_null-KeepsName _ a2 a3 ea3) in
    let (d6, e6, o6) =
      alter_table_returns "books" (set_not_null "is_active") d5 b2 b3
        (o5.others "books" ∙ o4.others "books") eb3 (set_not_null-KeepsName _ b2 b3 eb3) in
    (
      d6,
      rw (e1, e2, e3, e4, e5) e6,
      rw (o6.others "authors", o5.others "authors") full_a,
      rw (o6.others "books") full_b,
    )
