-- ===== src/Migrations/RoundTrip.antt =====
-- alembic/versions: what undoes what. Databases are compared by the table that each name finds.
use library_api.Prelude.{
  String, ◌≡◌, refl, Bool, true, false, not, ◌||◌, Option, none, some, List, [], ◌∷◌, ◌++◌, map,
  arith, ◌==◌, eq_iff, if◌then◌else◌, select,
}
use library_api.Migrations.Schema.{
  Cell, Column, Table, ForeignKey, Record, ok, any, duplicate_column, not_null_violation,
}
use library_api.Migrations.Operations.{
  refuse, add_column, drop_column, set_not_null, drop_default, assign, update_where, has_column,
  default_or_null, constrain, drop_foreign_key, lacks_value, widened, is_named, change_column,
}
use library_api.Migrations.Kept.{refuse-eq-ok, ok-injective}

abbrev mentions : String → List Record → Bool
mentions c rows = any (λ r. any (λ e. e.0 == c) r) rows

-- No row and no constraint of a table is about a column that the table does not have.
abbrev pub IsTidy : Table → Type 0
IsTidy t =
    (c : String)
    → has_column c t ≡ false
    → (mentions c t.rows ≡ false)
      × (any (λ u. u == c) t.unique ≡ false)
      × (any (λ f. f.column == c) t.foreign_keys ≡ false)

module _ {ℓ} {A : Type ℓ} where
  pub select-append_one :
      (p : A → Bool) (l : List A) (x : A)
      → any p l ≡ false
      → p x ≡ true
      → select (λ y. not (p y)) (l ++ x ∷ []) ≡ l
  select-append_one p [] x h e = ground arith
  select-append_one p (y ∷ l) x h e = ground (arith, select-append_one p l x)

  pub any-append : (p : A → Bool) (l : List A) (x : A) → any p (l ++ x ∷ []) ≡ (any p l || p x)
  any-append p [] x = ground arith
  any-append p (y ∷ l) x = ground (arith, any-append p l x)

  pub any-append_one : (p : A → Bool) (l : List A) (x : A) → p x ≡ true → any p (l ++ x ∷ []) ≡ true
  any-append_one p [] x h = ground arith
  any-append_one p (y ∷ l) x h = ground (arith, any-append_one p l x h)

  select_all : (p : A → Bool) (l : List A) → any p l ≡ false → select (λ y. not (p y)) l ≡ l
  select_all p [] h = refl
  select_all p (y ∷ l) h = ground (arith, select_all p l)

drop-append :
    (c : String) (v : Cell) (l : List Record)
    → mentions c l ≡ false
    → map (select (λ e. not (e.0 == c))) (map (λ r. r ++ (c, v) ∷ []) l) ≡ l
drop-append c v [] h = refl
drop-append c v (r ∷ l) h =
    ground (arith, eq_iff c c, select-append_one (λ e. e.0 == c) r (c, v), drop-append c v l)

drop-assign_row :
    (c : String) (v : Cell) (r : Record)
    → select (λ e. not (e.0 == c)) (assign c v r) ≡ select (λ e. not (e.0 == c)) r
unfolding assign
drop-assign_row c v [] = ground (arith, eq_iff c c)
drop-assign_row c v ((k, w) ∷ r) = ground (arith, drop-assign_row c v r)

drop-assign :
    (p : Record → Bool) (c : String) (v : Cell) (l : List Record)
    → map (select (λ e. not (e.0 == c))) (map (λ r. if p r then assign c v r else r) l)
      ≡ map (select (λ e. not (e.0 == c))) l
drop-assign p c v [] = refl
drop-assign p c v (r ∷ l) = ground (arith, drop-assign_row c v r, drop-assign p c v l)

-- A new column dropped.
pub drop_column-add_column :
    (k : Column) (t t' : Table) → IsTidy t → add_column k t ≡ ok t' → drop_column k.name t' ≡ ok t
unfolding add_column drop_column
drop_column-add_column k t t' tidy e =
    let (fresh, made) =
      refuse-eq-ok (has_column k.name t) duplicate_column
        (refuse (lacks_value k t) not_null_violation (ok (widened k t))) e in
    let (_, same) = refuse-eq-ok (lacks_value k t) not_null_violation (ok (widened k t)) made in
    let (cells, uniques, keys) = tidy k.name fresh in
    let named = (eq_iff k.name k.name).1 refl in
    let added = ok-injective (widened k t) t' same in
    rw (← added) (
      rw
        (
          any-append_one (λ (j : Column). j.name == k.name) t.columns k named,
          select-append_one (λ (j : Column). j.name == k.name) t.columns k fresh named,
          drop-append k.name (default_or_null k.server_default) t.rows cells,
          select_all (λ (u : String). u == k.name) t.unique uniques,
          select_all (λ (f : ForeignKey). f.column == k.name) t.foreign_keys keys,
        )
        refl)

module _ (c : String) (f : Column → Column) (keeps : (k : Column) → (f k).name ≡ k.name) where
  any-change_column :
      (l : List Column) → any (λ k. k.name == c) (change_column c f l) ≡ any (λ k. k.name == c) l
  any-change_column [] = refl
  any-change_column (k ∷ l) = ground (arith, keeps k, any-change_column l)

  select-change_column :
      (l : List Column)
      → select (λ k. not (k.name == c)) (change_column c f l) ≡ select (λ k. not (k.name == c)) l
  select-change_column [] = refl
  select-change_column (k ∷ l) = ground (arith, keeps k, select-change_column l)

module _ (c : String) (t t' : Table) where
  pub drop_column-update_where :
      (p : Record → Bool) (v : Cell)
      → update_where p c v t ≡ ok t'
      → drop_column c t' ≡ drop_column c t
  unfolding drop_column update_where
  drop_column-update_where p v e = ground (arith, drop-assign p c v t.rows)

  pub drop_column-set_not_null : set_not_null c t ≡ ok t' → drop_column c t' ≡ drop_column c t
  unfolding drop_column set_not_null
  drop_column-set_not_null e = ground (
    arith,
    any-change_column c (λ k. record k { nullable = false }) (λ k. refl) t.columns,
    select-change_column c (λ k. record k { nullable = false }) (λ k. refl) t.columns,
  )

  pub drop_column-drop_default : drop_default c t ≡ ok t' → drop_column c t' ≡ drop_column c t
  unfolding drop_column drop_default
  drop_column-drop_default e = ground (
    arith,
    any-change_column c (λ k. record k { server_default = none }) (λ k. refl) t.columns,
    select-change_column c (λ k. record k { server_default = none }) (λ k. refl) t.columns,
  )

pub drop_foreign_key-constrain :
    (s : String) (f : ForeignKey) (u : Option Table) (t t' : Table)
    → f.constraint ≡ some s
    → constrain f u t ≡ ok t'
    → drop_foreign_key s t' ≡ ok t
unfolding drop_foreign_key
drop_foreign_key-constrain s f none t t' h e = ground arith
drop_foreign_key-constrain s f (some u) t t' h e = ground (
  arith,
  eq_iff s s,
  any-append_one (λ (g : ForeignKey). is_named s g.constraint) t.foreign_keys f,
  select-append_one (λ (g : ForeignKey). is_named s g.constraint) t.foreign_keys f,
)
