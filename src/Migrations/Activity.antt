-- ===== src/Migrations/Activity.antt =====
-- alembic/versions/1b8d0f4a9c32_add_is_active_to_authors_and_books.py: two tables changed in turn.
use library_api.Prelude.{String, ◌≡◌, sym, ◌∙◌, true, some, arith, ◌==◌, eq_iff, if◌then◌else◌}
use library_api.Migrations.Schema.{Table, Database, ok, find_table, Cell}
use library_api.Migrations.Operations.{alter_table, add_column, drop_column, set_not_null, every}
use library_api.Migrations.Versions.{
  add_is_active_to_authors_and_books, downgrade, upgrade_catalogue_activity, set_active, is_active,
}
use library_api.Migrations.Kept.{bind-eq-ok}
use library_api.Migrations.Changes.{
  Altered, alter_table-Altered, alter_table_returns, alter_table-Altered_at,
}
use library_api.Migrations.RoundTrip.{
  IsTidy, drop_column-set_not_null, drop_column-update_where, drop_column-add_column,
}
use library_api.Migrations.Undo.{
  AllTidy, Restores, add_column-KeepsName, update_where-KeepsName, set_not_null-KeepsName,
  drop_column-KeepsName,
}

-- The column `is_active` of one table, before and after the whole upgrade.
activity_undone :
    (t0 t1 t2 t3 : Table)
    → IsTidy t0
    → add_column (is_active true) t0 ≡ ok t1
    → set_active t1 ≡ ok t2
    → set_not_null "is_active" t2 ≡ ok t3
    → drop_column "is_active" t3 ≡ ok t0
activity_undone t0 t1 t2 t3 tidy a b e =
    drop_column-set_not_null "is_active" t2 t3 e
    ∙ drop_column-update_where "is_active" t1 t2 every (Cell.boolean true) b
    ∙ drop_column-add_column (is_active true) t0 t1 tidy a

-- Two tables changed in turn, and changed back in the other order.
module _ {d0 d1 d2 d3 d4 d5 d6 : Database} {a0 a1 a2 a3 b0 b1 b2 b3 : Table}
    (fa : find_table "authors" d0.tables ≡ some a0) (fb : find_table "books" d0.tables ≡ some b0)
    (o1 : Altered "authors" a1 d0 d1) (o2 : Altered "books" b1 d1 d2)
    (o3 : Altered "authors" a2 d2 d3) (o4 : Altered "books" b2 d3 d4)
    (o5 : Altered "authors" a3 d4 d5) (o6 : Altered "books" b3 d5 d6) where
  found_at_end :
      (m : String)
      → find_table m d6.tables ≡ (
          if "books" == m
          then some b3
          else if "authors" == m
          then some a3
          else find_table m d0.tables)
  found_at_end m =
      ground (arith, o1.others m, o2.others m, o3.others m, o4.others m, o5.others m, o6.others m)

  both_restored :
      drop_column "is_active" a3 ≡ ok a0
      → drop_column "is_active" b3 ≡ ok b0
      → Restores (downgrade add_is_active_to_authors_and_books) d6 d0
  unfolding downgrade
  both_restored back_a back_b =
      let (d7, e7, o7) =
        alter_table_returns "books" (drop_column "is_active") d6 b3 b0 (found_at_end "books") back_b
          (drop_column-KeepsName "is_active" b3 b0 back_b) in
      let (d8, e8, o8) =
        alter_table_returns "authors" (drop_column "is_active") d7 a3 a0
          (o7.others "authors" ∙ found_at_end "authors") back_a
          (drop_column-KeepsName "is_active" a3 a0 back_a) in
      (
        d8,
        rw e7 e8,
        λ m.
            ground (
              arith,
              o7.others m,
              o8.others m,
              found_at_end m,
              eq_iff "authors" m,
              eq_iff "books" m,
            ),
        o8.types ∙ o7.types,
      )

pub activity_restored :
    (d d' : Database)
    → AllTidy d
    → upgrade_catalogue_activity d ≡ ok d'
    → Restores (downgrade add_is_active_to_authors_and_books) d' d
unfolding upgrade_catalogue_activity
activity_restored d d' tidy e =
    let (d5, e5, s6) = bind-eq-ok _ (alter_table "books" (set_not_null "is_active")) e in
    let (d4, e4, s5) = bind-eq-ok _ (alter_table "authors" (set_not_null "is_active")) e5 in
    let (d3, e3, s4) = bind-eq-ok _ (alter_table "books" set_active) e4 in
    let (d2, e2, s3) = bind-eq-ok _ (alter_table "authors" set_active) e3 in
    let (d1, s1, s2) = bind-eq-ok _ (alter_table "books" (add_column (is_active true))) e2 in
    let (a0, a1, fa, ma1, o1) = alter_table-Altered "authors" _ d (add_column-KeepsName _) d1 s1 in
    let (b0, b1, fb', mb1, o2) = alter_table-Altered "books" _ d1 (add_column-KeepsName _) d2 s2 in
    let fb : find_table "books" d.tables ≡ some b0 = sym (o1.others "books") ∙ fb' in
    let (a2, ma2, o3) =
      alter_table-Altered_at "authors" _ d2 (update_where-KeepsName _ _ _) d3 a1
        (ground (arith, o2.others "authors", o1.others "authors")) s3 in
    let (b2, mb2, o4) =
      alter_table-Altered_at "books" _ d3 (update_where-KeepsName _ _ _) d4 b1
        (ground (arith, o3.others "books", o2.others "books")) s4 in
    let (a3, ma3, o5) =
      alter_table-Altered_at "authors" _ d4 (set_not_null-KeepsName _) d5 a2
        (ground (arith, o4.others "authors", o3.others "authors")) s5 in
    let (b3, mb3, o6) =
      alter_table-Altered_at "books" _ d5 (set_not_null-KeepsName _) d' b2
        (ground (arith, o5.others "books", o4.others "books")) s6 in
    both_restored fa fb o1 o2 o3 o4 o5 o6
      (activity_undone a0 a1 a2 a3 (tidy "authors" a0 fa) ma1 ma2 ma3)
      (activity_undone b0 b1 b2 b3 (tidy "books" b0 fb) mb1 mb2 mb3)
