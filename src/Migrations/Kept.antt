-- ===== src/Migrations/Kept.antt =====
-- alembic/versions: what the migrations do to the data that is there.
use library_api.Prelude.{
  String, ◌≡◌, refl, ◌∙◌, Bool, true, false, ◌&&◌, Option, none, some, List, [], ◌∷◌, ◌++◌, map,
  inl, inr, Bool-cases, arith, ◌==◌, eq_iff, if◌then◌else◌,
}
use library_api.Migrations.Schema.{
  Cell, SqlError, Column, Table, ForeignKey, Database, Record, read, Sql, ok, err, bind, Migration,
  ◌>>◌, find_table, values, rows_of,
}
use library_api.Migrations.Operations.{
  refuse, alter, alter_table, add_column, set_not_null, drop_default, assign, update_where,
  create_type, add_value, create_table, constrain, create_foreign_key, default_or_null,
}

abbrev pub reads : String → Table → List Cell
reads c t = map (read c) t.rows

-- An operation on the table `n` that leaves the column `c` of the table `m` alone.
abbrev pub Spares : String → String → String → (Table → Sql Table) → Type 0
Spares m c n f =
    (t t' : Table) → f t ≡ ok t' → (t'.name ≡ t.name) × ((n == m) ≡ true → reads c t' ≡ reads c t)

-- A migration after which the same values stand in the column `c` of the table `m`.
abbrev pub Preserves : String → String → Migration → Type 0
Preserves m c k = (d d' : Database) → k d ≡ ok d' → values m c d' ≡ values m c d

pub bind-eq-ok :
    {A B : Type 0} (m : Sql A) (f : A → Sql B) {b : B}
    → bind m f ≡ ok b
    → (a : A) × (m ≡ ok a) × (f a ≡ ok b)
bind-eq-ok (ok a) f h = (a, refl, h)
bind-eq-ok (err e) f h = ground arith

pub refuse-eq-ok :
    {A : Type 0} (b : Bool) (e : SqlError) (m : Sql A) {a : A}
    → refuse b e m ≡ ok a
    → (b ≡ false) × (m ≡ ok a)
refuse-eq-ok true e m h = ground arith
refuse-eq-ok false e m h = (refl, h)

pub ok-injective : {A : Type 0} (a b : A) → ok a ≡ ok b → a ≡ b
ok-injective a b h = cc

pub read-append :
    (c k : String) (v : Cell) (r : Record) → (k == c) ≡ false → read c (r ++ (k, v) ∷ []) ≡ read c r
unfolding read
read-append c k v [] h = ground arith
read-append c k v ((j, w) ∷ r) h = ground (arith, read-append c k v r h)

pub read-assign :
    (c k : String) (v : Cell) (r : Record) → (k == c) ≡ false → read c (assign k v r) ≡ read c r
unfolding read assign
read-assign c k v [] h = rw h refl
read-assign c k v ((j, w) ∷ r) h =
    ground (arith, eq_iff j k, eq_iff j c, eq_iff k c, read-assign c k v r h)

reads-append :
    (c k : String) (v : Cell) (l : List Record)
    → (k == c) ≡ false
    → map (read c) (map (λ r. r ++ (k, v) ∷ []) l) ≡ map (read c) l
reads-append c k v [] h = refl
reads-append c k v (r ∷ l) h = rw (read-append c k v r h, reads-append c k v l h) refl

reads-assign :
    (p : Record → Bool) (c k : String) (v : Cell) (l : List Record)
    → (k == c) ≡ false
    → map (read c) (map (λ r. if p r then assign k v r else r) l) ≡ map (read c) l
reads-assign p c k v [] h = refl
reads-assign p c k v (r ∷ l) h = ground (arith, read-assign c k v r h, reads-assign p c k v l h)

module _ (m c n : String) where
  pub add_column-Spares :
      (k : Column) → ((n == m) && (k.name == c)) ≡ false → Spares m c n (add_column k)
  unfolding add_column
  add_column-Spares k h t t' e =
      ground (arith, reads-append c k.name (default_or_null k.server_default) t.rows)

  pub update_where-Spares :
      (p : Record → Bool) (k : String) (v : Cell)
      → ((n == m) && (k == c)) ≡ false
      → Spares m c n (update_where p k v)
  unfolding update_where
  update_where-Spares p k v h t t' e = ground (arith, reads-assign p c k v t.rows)

  pub set_not_null-Spares : (k : String) → Spares m c n (set_not_null k)
  unfolding set_not_null
  set_not_null-Spares k t t' e = ground arith

  pub drop_default-Spares : (k : String) → Spares m c n (drop_default k)
  unfolding drop_default
  drop_default-Spares k t t' e = ground arith

  constrain-Spares : (f : ForeignKey) (u : Option Table) → Spares m c n (constrain f u)
  constrain-Spares f none t t' e = ground arith
  constrain-Spares f (some u) t t' e = ground arith

  alter-reads :
      (f : Table → Sql Table)
      → Spares m c n f
      → (l l' : List Table) → alter n f l ≡ ok l'
      → map (read c) (rows_of (find_table m l')) ≡ map (read c) (rows_of (find_table m l))
  unfolding alter find_table
  alter-reads f s [] l' e = ground arith
  alter-reads f s (t ∷ l) l' e = elim (Bool-cases (t.name == n)) [
    | inl here ↦
        let (t', made, same) = bind-eq-ok (f t) (λ t'. ok (t' ∷ l)) (rw here at e) in
        ground (
          arith,
          s t t' made,
          ok-injective (t' ∷ l) l' same,
          eq_iff t.name n,
          eq_iff t.name m,
          eq_iff n m,
        )
    | inr there ↦
        let (k, made, same) = bind-eq-ok (alter n f l) (λ k. ok (t ∷ k)) (rw there at e) in
        ground (arith, alter-reads f s l k made, ok-injective (t ∷ k) l' same)
  ]

  pub alter_table-Preserves :
      (f : Table → Sql Table) → Spares m c n f → Preserves m c (alter_table n f)
  unfolding alter_table
  alter_table-Preserves f s d d' e =
      let (l, made, same) = bind-eq-ok (alter n f d.tables) (λ l. ok (record d { tables = l })) e in
      ground
        (arith, alter-reads f s d.tables l made, ok-injective (record d { tables = l }) d' same)

module _ (m c : String) where
  pub >>-Preserves : (j k : Migration) → Preserves m c j → Preserves m c k → Preserves m c (j >> k)
  >>-Preserves j k p q d d' e =
      let (mid, first, second) = bind-eq-ok (j d) k e in q mid d' second ∙ p d mid first

  pub create_type-Preserves : (n : String) (l : List String) → Preserves m c (create_type n l)
  unfolding create_type
  create_type-Preserves n l d d' e = ground arith

  pub add_value-Preserves : (n l : String) → Preserves m c (add_value n l)
  unfolding add_value
  add_value-Preserves n l d d' e = ground arith

  reads-insert :
      (t : Table) (l : List Table)
      → t.rows ≡ []
      → map (read c) (rows_of (find_table m (l ++ t ∷ [])))
        ≡ map (read c) (rows_of (find_table m l))
  unfolding find_table
  reads-insert t [] h = ground arith
  reads-insert t (u ∷ l) h = ground (arith, reads-insert t l h)

  pub create_table-Preserves : (t : Table) → t.rows ≡ [] → Preserves m c (create_table t)
  unfolding create_table
  create_table-Preserves t h d d' e = ground (arith, reads-insert t d.tables h)

  pub create_foreign_key-Preserves :
      (f : ForeignKey) (n : String) → Preserves m c (create_foreign_key f n)
  unfolding create_foreign_key
  create_foreign_key-Preserves f n d d' e =
      alter_table-Preserves m c n (constrain f (find_table f.table d.tables))
        (constrain-Spares m c n f (find_table f.table d.tables)) d d' e
