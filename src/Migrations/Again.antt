-- ===== src/Migrations/Again.antt =====
-- alembic/versions: where a migration cannot run, though the one before it did.
use library_api.Migrations.Tables.{loans, reservations, notifications}
use library_api.Migrations.Kept.{bind-eq-ok}
use library_api.Migrations.RoundTrip.{any-append, any-append_one}
use library_api.Prelude.{
  String, ◌≡◌, refl, ◌∙◌, Bool, true, false, List, [], ◌∷◌, arith, eq_iff, ◌==◌, ap,
}
use library_api.External.{External}
use library_api.Migrations.Schema.{Database, Table, EnumType, ok, err, duplicate_object, ◌>>◌}
use library_api.Migrations.Operations.{create_type, create_table, drop_table, find_enum}
use library_api.Migrations.Seed.{Environment}
use library_api.Migrations.Versions.{
  Revision, create_loans_table, create_notifications_table, create_reservations_table, upgrade,
  downgrade, upgrade_loans, upgrade_notifications, upgrade_reservations,
}

-- The revisions with columns of enumeration types.
abbrev pub makes_types : Revision → Bool
makes_types create_loans_table = true
makes_types create_notifications_table = true
makes_types create_reservations_table = true
makes_types _ = false

create_type_there :
    (n : String) (l : List String) (d d' : Database)
    → create_type n l d ≡ ok d'
    → find_enum n d'.enums ≡ true
unfolding create_type find_enum
create_type_there n l d d' e = ground (
  arith,
  eq_iff n n,
  any-append_one (λ (x : EnumType). x.name == n) d.enums (record { name = n; labels = l }),
)

create_type_kept :
    (m n : String) (l : List String) (d d' : Database)
    → create_type n l d ≡ ok d'
    → find_enum m d.enums ≡ true
    → find_enum m d'.enums ≡ true
unfolding create_type find_enum
create_type_kept m n l d d' e h =
    ground
      (arith, any-append (λ (x : EnumType). x.name == m) d.enums (record { name = n; labels = l }))

create_type_again :
    (n : String) (l : List String) (d : Database)
    → find_enum n d.enums ≡ true
    → create_type n l d ≡ err duplicate_object
unfolding create_type
create_type_again n l d h = rw h refl

create_table_kept : (t : Table) (d d' : Database) → create_table t d ≡ ok d' → d'.enums ≡ d.enums
unfolding create_table
create_table_kept t d d' e = ground arith

drop_table_kept : (n : String) (d d' : Database) → drop_table n d ≡ ok d' → d'.enums ≡ d.enums
unfolding drop_table
drop_table_kept n d d' e = ground arith

typed_again :
    (n : String) (l : List String) (t : Table) (d d' d'' : Database)
    → (create_type n l >> create_table t) d ≡ ok d'
    → drop_table t.name d' ≡ ok d''
    → create_type n l d'' ≡ err duplicate_object
typed_again n l t d d' d'' e k =
    let (d1, s1, s2) = bind-eq-ok (create_type n l d) (create_table t) e in
    let same = drop_table_kept t.name d' d'' k ∙ create_table_kept t d1 d' s2 in
    create_type_again n l d'' (ap (find_enum n) same ∙ create_type_there n l d d1 s1)

notifications_again :
    (d d' d'' : Database)
    → upgrade_notifications d ≡ ok d'
    → drop_table "notifications" d' ≡ ok d''
    → upgrade_notifications d'' ≡ err duplicate_object
unfolding upgrade_notifications
notifications_again d d' d'' e k =
    let (d2, e2, s3) = bind-eq-ok _ (create_table notifications) e in
    let (d1, s1, s2) =
      bind-eq-ok _ (create_type "notificationstatus" ("SENT" ∷ "FAILED" ∷ [])) e2 in
    let there =
      create_type_kept "notificationtype" _ _ d1 d2 s2
        (create_type_there "notificationtype" _ d d1 s1) in
    let same =
      drop_table_kept "notifications" d' d'' k ∙ create_table_kept notifications d2 d' s3 in
    rw (create_type_again "notificationtype" _ d'' (ap (find_enum "notificationtype") same ∙ there))
      refl

module _ ⦃ext : External⦄ (env : Environment) where
  -- A revision that creates a table with columns of enumeration types cannot be applied again after
  -- its own downgrade, from any database: the types are still there, and it is refused.
  pub upgrade-downgrade :
      (r : Revision) (d d' d'' : Database)
      → makes_types r ≡ true
      → upgrade env r d ≡ ok d'
      → downgrade r d' ≡ ok d''
      → upgrade env r d'' ≡ err duplicate_object
  unfolding upgrade downgrade upgrade_loans upgrade_notifications upgrade_reservations
  upgrade-downgrade create_loans_table d d' d'' h e k = rw (typed_again _ _ loans d d' d'' e k) refl
  upgrade-downgrade create_reservations_table d d' d'' h e k =
      rw (typed_again _ _ reservations d d' d'' e k) refl
  upgrade-downgrade create_notifications_table d d' d'' h e k = notifications_again d d' d'' e k
  upgrade-downgrade _ d d' d'' h e k = ground arith
