-- ===== src/Migrations/Erase.antt =====
-- alembic/versions: what the upgrades do to the tables does not hang on the rows.
use library_api.Migrations.Kept.{bind-eq-ok, ok-injective}
use library_api.Prelude.{
  String, ◌≡◌, refl, Bool, not, Option, none, some, List, [], ◌∷◌, ◌++◌, map, arith, inl, inr,
  Bool-cases, ◌==◌,
}
use library_api.Migrations.Schema.{
  Cell, Column, ForeignKey, Table, Database, Record, Sql, ok, Migration, ◌>>◌, any, find_table,
}
use library_api.Migrations.Operations.{
  alter, alter_table, add_column, set_not_null, update_where, drop_default, constrain, create_type,
  create_foreign_key, create_table, named, add_value,
}

abbrev pub erase_table : Table → Table
erase_table t = record t { rows = [] }

-- The database with its rows gone.
abbrev pub erase : Database → Database
erase d = record d { tables = map erase_table d.tables }

abbrev pub IsUniformOn : (Table → Sql Table) → (Table → Sql Table) → Type 0
IsUniformOn f g = (t t' : Table) → f t ≡ ok t' → g (erase_table t) ≡ ok (erase_table t')

-- Where it succeeds, it does the same to the tables as it does without rows.
abbrev pub IsUniform : Migration → Type 0
IsUniform k = (d d' : Database) → k d ≡ ok d' → k (erase d) ≡ ok (erase d')

pub add_column-IsUniformOn : (k : Column) → IsUniformOn (add_column k) (add_column k)
unfolding add_column
add_column-IsUniformOn k t t' e = ground arith

pub update_where-IsUniformOn :
    (p : Record → Bool) (c : String) (v : Cell)
    → IsUniformOn (update_where p c v) (update_where p c v)
unfolding update_where
update_where-IsUniformOn p c v t t' e = ground arith

pub set_not_null-IsUniformOn : (c : String) → IsUniformOn (set_not_null c) (set_not_null c)
unfolding set_not_null
set_not_null-IsUniformOn c t t' e = ground arith

pub drop_default-IsUniformOn : (c : String) → IsUniformOn (drop_default c) (drop_default c)
unfolding drop_default
drop_default-IsUniformOn c t t' e = ground arith

abbrev erased : Option Table → Option Table
erased none = none
erased (some t) = some (erase_table t)

constrain-IsUniformOn :
    (f : ForeignKey) (u : Option Table) → IsUniformOn (constrain f u) (constrain f (erased u))
constrain-IsUniformOn f none t t' e = ground arith
constrain-IsUniformOn f (some u) t t' e = ground arith

find_table-erase :
    (n : String) (l : List Table) → find_table n (map erase_table l) ≡ erased (find_table n l)
unfolding find_table
find_table-erase n [] = refl
find_table-erase n (t ∷ l) = ground (arith, find_table-erase n l)

any-erase :
    (p : Table → Bool)
    → ((t : Table) → p (erase_table t) ≡ p t)
    → (l : List Table) → any p (map erase_table l) ≡ any p l
any-erase p h [] = refl
any-erase p h (t ∷ l) = rw (h t, any-erase p h l) refl

map-erase-append :
    (l : List Table) (t : Table)
    → t.rows ≡ []
    → map erase_table (l ++ t ∷ []) ≡ map erase_table l ++ t ∷ []
map-erase-append [] t h = ground arith
map-erase-append (u ∷ l) t h = ground (arith, map-erase-append l t h)

alter-erase :
    (n : String) (f g : Table → Sql Table)
    → IsUniformOn f g
    → (l l' : List Table) → alter n f l ≡ ok l'
    → alter n g (map erase_table l) ≡ ok (map erase_table l')
unfolding alter
alter-erase n f g u [] l' e = ground arith
alter-erase n f g u (t ∷ l) l' e = elim (Bool-cases (t.name == n)) [
  | inl here ↦
      let (t', made, same) = bind-eq-ok (f t) (λ t'. ok (t' ∷ l)) (rw here at e) in
      ground (arith, u t t' made, ok-injective (t' ∷ l) l' same)
  | inr there ↦
      let (k, made, same) = bind-eq-ok (alter n f l) (λ k. ok (t ∷ k)) (rw there at e) in
      ground (arith, alter-erase n f g u l k made, ok-injective (t ∷ k) l' same)
]

pub alter_table-IsUniform :
    (n : String) (f : Table → Sql Table) → IsUniformOn f f → IsUniform (alter_table n f)
unfolding alter_table
alter_table-IsUniform n f u d d' e =
    let (l, made, same) = bind-eq-ok (alter n f d.tables) (λ l. ok (record d { tables = l })) e in
    ground
      (arith, alter-erase n f f u d.tables l made, ok-injective (record d { tables = l }) d' same)

any_missing-erase :
    (fs : List ForeignKey) (l : List Table)
    → any (λ f. not (any (named f.table) (map erase_table l))) fs
      ≡ any (λ f. not (any (named f.table) l)) fs
any_missing-erase [] l = refl
any_missing-erase (f ∷ fs) l =
    rw (any-erase (named f.table) (λ u. refl) l, any_missing-erase fs l) refl

pub >>-IsUniform : (j k : Migration) → IsUniform j → IsUniform k → IsUniform (j >> k)
>>-IsUniform j k p q d d' e =
    let (mid, first, second) = bind-eq-ok (j d) k e in rw (p d mid first) (q mid d' second)

pub create_type-IsUniform : (n : String) (l : List String) → IsUniform (create_type n l)
unfolding create_type
create_type-IsUniform n l d d' e = ground arith

pub add_value-IsUniform : (n l : String) → IsUniform (add_value n l)
unfolding add_value
add_value-IsUniform n l d d' e = ground arith

pub create_table-IsUniform : (t : Table) → t.rows ≡ [] → IsUniform (create_table t)
unfolding create_table
create_table-IsUniform t h d d' e = ground (
  arith,
  any-erase (named t.name) (λ u. refl) d.tables,
  map-erase-append d.tables t h,
  any_missing-erase t.foreign_keys d.tables,
)

pub create_foreign_key-IsUniform :
    (f : ForeignKey) (n : String) → IsUniform (create_foreign_key f n)
unfolding create_foreign_key alter_table
create_foreign_key-IsUniform f n d d' e =
    let u = find_table f.table d.tables in
    let (l, made, same) =
      bind-eq-ok (alter n (constrain f u) d.tables) (λ l. ok (record d { tables = l })) e in
    rw (find_table-erase f.table d.tables) (
      ground (
        arith,
        alter-erase n (constrain f u) (constrain f (erased u)) (constrain-IsUniformOn f u) d.tables
            l made,
        ok-injective (record d { tables = l }) d' same,
      ))
