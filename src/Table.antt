-- ===== src/Table.antt =====
-- A table of the database as the list of its rows, each with its primary key. What SQLAlchemy
-- sends to PostgreSQL is translated as follows: a query by primary key finds the one row that has
-- the key, an UPDATE of a loaded object writes its row back, an INSERT adds a row at the end.
use library_api.Prelude.{
  ◌+◌, String, ◌≡◌, Bool, true, Option, none, some, List, [], ◌∷◌, ◌++◌, arith, ◌==◌, eq_iff,
  if◌then◌else◌, count, weight,
}
use library_api.Errors.{Error, multiple_results_found}

pub record Row (A : Type 0) : Type 0 where
  pub id_of : A → String

-- `result.scalar_one_or_none()` on the rows of a query that is not by a key.
pub data Scalar (A : Type 0) : Type 0 where
  value : Option A → Scalar A
  raises : Error → Scalar A

abbrev pub scalar_one_or_none : {A : Type 0} → List A → Scalar A
scalar_one_or_none [] = value none
scalar_one_or_none (x ∷ []) = value (some x)
scalar_one_or_none (x ∷ y ∷ l) = raises multiple_results_found

module _ {A : Type 0} ⦃r : Row A⦄ where
  -- `WHERE id = k`
  unfoldable pub find_by_key : String → List A → Option A
  find_by_key k [] = none
  find_by_key k (x ∷ l) = if r.id_of x == k then some x else find_by_key k l

  -- The row again, if it passes the other conditions of a `WHERE`.
  abbrev pub filtered : (A → Bool) → Option A → Option A
  filtered p none = none
  filtered p (some x) = if p x then some x else none

  -- `WHERE id = k AND p`
  abbrev pub find_where : String → (A → Bool) → List A → Option A
  find_where k p l = filtered p (find_by_key k l)

  -- The flush of a changed object.
  unfoldable pub save : A → List A → List A
  save x [] = []
  save x (y ∷ l) = if r.id_of y == r.id_of x then x ∷ l else y ∷ save x l

  -- The flush of a new object.
  abbrev pub insert : A → List A → List A
  insert x l = l ++ x ∷ []

  abbrev or_else : Option A → Option A → Option A
  or_else none o = o
  or_else (some x) o = some x

  pub id_of-find_by_key :
      (k : String) (l : List A) {x : A} → find_by_key k l ≡ some x → r.id_of x ≡ k
  unfolding find_by_key
  id_of-find_by_key k [] h = ground arith
  id_of-find_by_key k (y ∷ l) {x} h =
      ground (arith, eq_iff (r.id_of y) k, id_of-find_by_key k l {x = x})

  pub find_by_key-save :
      (k : String) (x old : A) (l : List A)
      → find_by_key (r.id_of x) l ≡ some old
      → find_by_key k (save x l) ≡ (if r.id_of x == k then some x else find_by_key k l)
  unfolding find_by_key save
  find_by_key-save k x old [] h = ground arith
  find_by_key-save k x old (y ∷ l) h = ground (
    arith,
    eq_iff (r.id_of y) k,
    eq_iff (r.id_of y) (r.id_of x),
    eq_iff (r.id_of x) k,
    find_by_key-save k x old l,
  )

  pub find_by_key-insert :
      (k : String) (x : A) (l : List A)
      → find_by_key k (insert x l)
        ≡ or_else (find_by_key k l) (if r.id_of x == k then some x else none)
  unfolding find_by_key
  find_by_key-insert k x [] = ground arith
  find_by_key-insert k x (y ∷ l) = ground (arith, find_by_key-insert k x l)

  -- A write back changes every count by what it changes in its row.
  pub count-save :
      (p : A → Bool) (x old : A) (l : List A)
      → find_by_key (r.id_of x) l ≡ some old
      → count p (save x l) + weight (p old) ≡ count p l + weight (p x)
  unfolding find_by_key save
  count-save p x old [] h = ground arith
  count-save p x old (y ∷ l) h = ground (arith, count-save p x old l)

  -- The row that a query finds stands under its own key.
  pub find_by_key_self :
      (k : String) (l : List A) {x : A}
      → find_by_key k l ≡ some x
      → find_by_key (r.id_of x) l ≡ some x
  find_by_key_self k l {x} h = rw (id_of-find_by_key k l {x = x} h) h

  pub filtered-eq-some :
      (p : A → Bool) (o : Option A) {x : A} → filtered p o ≡ some x → (o ≡ some x) × (p x ≡ true)
  filtered-eq-some p none h = ground arith
  filtered-eq-some p (some y) h = ground arith

  pub find_where_self :
      (k : String) (p : A → Bool) (l : List A) {x : A}
      → find_where k p l ≡ some x
      → (find_by_key (r.id_of x) l ≡ some x) × (p x ≡ true) × (r.id_of x ≡ k)
  find_where_self k p l {x} h =
      let (found, passes) = filtered-eq-some p (find_by_key k l) {x = x} h in
      (find_by_key_self k l {x = x} found, passes, id_of-find_by_key k l {x = x} found)

module _ {A : Type 0} where
  pub count-insert :
      (p : A → Bool) (x : A) (l : List A) → count p (l ++ x ∷ []) ≡ count p l + weight (p x)
  count-insert p x [] = ground arith
  count-insert p x (y ∷ l) = ground (arith, count-insert p x l)
