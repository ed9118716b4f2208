-- ===== src/Migrations/Changes.antt =====
-- alembic/versions: an operation on one table, seen from the table that each name finds.
use library_api.Prelude.{
  String, ◌≡◌, refl, sym, ◌∙◌, false, some, List, [], ◌∷◌, ap, arith, ◌==◌, eq_iff, if◌then◌else◌,
  inl, inr, Bool-cases,
}
use library_api.Migrations.Schema.{Table, Database, Sql, ok, err, any, find_table, SqlError}
use library_api.Migrations.Operations.{alter, alter_table, create_table, drop_table, refers, named}
use library_api.Migrations.RoundTrip.{any-append, any-append_one, select-append_one}
use library_api.Migrations.Kept.{bind-eq-ok, ok-injective}

-- The table `n` of `d` has become `t'`, and nothing else is new.
pub record Altered (n : String) (t' : Table) (d d' : Database) : Type 0 where
  pub others :
      (m : String) → find_table m d'.tables ≡ (if n == m then some t' else find_table m d.tables)
  pub types : d'.enums ≡ d.enums

abbrev pub KeepsName : (Table → Sql Table) → Type 0
KeepsName f = (t t' : Table) → f t ≡ ok t' → t'.name ≡ t.name

find_table-name : (n : String) (l : List Table) {t : Table} → find_table n l ≡ some t → t.name ≡ n
unfolding find_table
find_table-name n [] h = ground arith
find_table-name n (u ∷ l) {t} h = ground (arith, eq_iff u.name n, find_table-name n l {t = t})

module _ (n : String) (f : Table → Sql Table) where
  alter-finds :
      (l : List Table) {l' : List Table}
      → alter n f l ≡ ok l'
      → (t : Table) × (t' : Table) × (find_table n l ≡ some t) × (f t ≡ ok t')
  unfolding alter find_table
  alter-finds [] e = ground arith
  alter-finds (u ∷ l) {l'} e = elim (Bool-cases (u.name == n)) [
    | inl here ↦
        let (u', made, _) = bind-eq-ok (f u) (λ u'. ok (u' ∷ l)) (rw here at e) in
        (u, u', rw here refl, made)
    | inr there ↦
        let (k, made, _) = bind-eq-ok (alter n f l) (λ k. ok (u ∷ k)) (rw there at e) in
        let (t, t', found, changed) = alter-finds l {l' = k} made in
        (t, t', rw there found, changed)
  ]

  alter-find_table :
      (l : List Table) (t t' : Table)
      → find_table n l ≡ some t
      → f t ≡ ok t'
      → t'.name ≡ n
      → (l' : List Table) × (alter n f l ≡ ok l')
        × ((m : String) → find_table m l' ≡ (if n == m then some t' else find_table m l))
  unfolding alter find_table
  alter-find_table [] t t' found made h = ground arith
  alter-find_table (u ∷ l) t t' found made h = elim (Bool-cases (u.name == n)) [
    | inl here ↦
        (t' ∷ l, ground arith, λ m. ground (arith, eq_iff u.name n, eq_iff n m, eq_iff u.name m))
    | inr there ↦
        let (k, done, others) = alter-find_table l t t' (ground arith) made h in
        (
          u ∷ k,
          ground arith,
          λ m. ground (arith, others m, eq_iff u.name n, eq_iff n m, eq_iff u.name m),
        )
  ]

module _ (n : String) (f : Table → Sql Table) (d : Database) where
  -- What a change of one table has done.
  pub alter_table-Altered :
      KeepsName f
      → (d' : Database) → alter_table n f d ≡ ok d'
      → (t : Table) × (t' : Table) × (find_table n d.tables ≡ some t)
        × (f t ≡ ok t')
        × Altered n t' d d'
  unfolding alter_table
  alter_table-Altered keeps d' e =
      let (l', made, same) =
        bind-eq-ok (alter n f d.tables) (λ l. ok (record d { tables = l })) e in
      let (t, t', found, changed) = alter-finds n f d.tables {l' = l'} made in
      let named : t'.name ≡ n = keeps t t' changed ∙ find_table-name n d.tables {t = t} found in
      let (l'', made', others) = alter-find_table n f d.tables t t' found changed named in
      let tables : l'' ≡ d'.tables =
        ok-injective l'' l' (sym made' ∙ made)
        ∙ ap Database.tables (ok-injective (record d { tables = l' }) d' same) in
      let types : d'.enums ≡ d.enums =
        sym (ap Database.enums (ok-injective (record d { tables = l' }) d' same)) in
      (t, t', found, changed, record { others = λ m. rw tables at (others m); types = types })

  -- The same, where it is known what the name finds.
  pub alter_table-Altered_at :
      KeepsName f
      → (d' : Database) (t : Table) → find_table n d.tables ≡ some t
      → alter_table n f d ≡ ok d'
      → (t' : Table) × (f t ≡ ok t') × Altered n t' d d'
  alter_table-Altered_at keeps d' t found e =
      let (u, t', found', changed, a) = alter_table-Altered keeps d' e in
      let same : u ≡ t = ground (arith, found, found') in (t', rw same at changed, a)

  -- A change of a table that is there and lets itself be changed.
  pub alter_table_returns :
      (t t' : Table)
      → find_table n d.tables ≡ some t
      → f t ≡ ok t'
      → t'.name ≡ t.name
      → (d' : Database) × (alter_table n f d ≡ ok d') × Altered n t' d d'
  unfolding alter_table
  alter_table_returns t t' found changed named =
      let (l', made, others) =
        alter-find_table n f d.tables t t' found changed
          (named ∙ find_table-name n d.tables {t = t} found) in
      (record d { tables = l' }, rw made refl, record { others = others; types = refl })

  alter-refuses :
      (l : List Table) (t : Table) {x : SqlError}
      → find_table n l ≡ some t
      → f t ≡ err x
      → alter n f l ≡ err x
  unfolding alter find_table
  alter-refuses [] t found refused = ground arith
  alter-refuses (u ∷ l) t {x} found refused = ground (arith, alter-refuses l t {x = x})

  -- A change that the table refuses.
  pub alter_table_refuses :
      (t : Table) {x : SqlError}
      → find_table n d.tables ≡ some t
      → f t ≡ err x
      → alter_table n f d ≡ err x
  unfolding alter_table
  alter_table_refuses t {x} found refused = rw (alter-refuses d.tables t {x = x} found refused) refl

-- A new table dropped.
pub drop_table-create_table :
    (t : Table) (d d' : Database)
    → any (refers t.name) d.tables ≡ false
    → create_table t d ≡ ok d'
    → drop_table t.name d' ≡ ok d
unfolding create_table drop_table
drop_table-create_table t d d' h e = ground (
  arith,
  eq_iff t.name t.name,
  any-append_one (named t.name) d.tables t,
  any-append (refers t.name) d.tables t,
  select-append_one (named t.name) d.tables t,
)
