-- ===== src/Reports/CsvReader.antt =====
-- A reader of comma-separated values (RFC 4180), written without regard to the writer, and that it
-- reads back what `csv.writer` writes.
use mathlib.Core.List.{append_assoc}
use library_api.Prelude.{
  ℕ, ◌≡◌, refl, false, List, [], ◌∷◌, ◌++◌, eqb, if◌then◌else◌, arith, Bool-cases, inl, inr,
}
use library_api.Reports.Text.{Text}
use library_api.Reports.Csv.{
  comma, quote, carriage_return, line_feed, needs_quotes, doubled, write_field, joined, writerow,
  writerows,
}

pub data Mode : Type 0 where
  row_start field_start plain quoted closing returning : Mode

-- What a character adds to the table that the rest of the text gives.
pub data Effect : Type 0 where
  nothing end_field end_row : Effect
  push : ℕ → Effect

abbrev pub Table : Type 0
Table = List (List Text)

-- The rest of the text begins inside the first field of the first row.
abbrev push_char : ℕ → Table → Table
push_char c [] = ((c ∷ []) ∷ []) ∷ []
push_char c ([] ∷ rows) = ((c ∷ []) ∷ []) ∷ rows
push_char c ((f ∷ fields) ∷ rows) = ((c ∷ f) ∷ fields) ∷ rows

abbrev push_field : Table → Table
push_field [] = ([] ∷ []) ∷ []
push_field (fields ∷ rows) = ([] ∷ fields) ∷ rows

abbrev apply : Effect → Table → Table
apply nothing t = t
apply end_field t = push_field t
apply end_row t = ([] ∷ []) ∷ t
apply (push c) t = push_char c t

-- A character that does not stand between quotes.
abbrev outside : ℕ → Mode × Effect
outside c =
    if eqb c comma
    then (field_start, end_field)
    else if eqb c carriage_return
    then (returning, nothing)
    else if eqb c line_feed
    then (row_start, end_row)
    else (plain, push c)

abbrev opening : ℕ → Mode × Effect
opening c = if eqb c quote then (quoted, nothing) else outside c

abbrev step : Mode → ℕ → Mode × Effect
step row_start c = opening c
step field_start c = opening c
step plain c = outside c
step quoted c = if eqb c quote then (closing, nothing) else (quoted, push c)
step closing c = if eqb c quote then (quoted, push quote) else outside c
step returning c = outside c

abbrev at_end : Mode → Table
at_end row_start = []
at_end _ = ([] ∷ []) ∷ []

unfoldable pub read_from : Mode → Text → Table
read_from mode [] = at_end mode
read_from mode (c ∷ s) = let (mode', effect) = step mode c in apply effect (read_from mode' s)

unfoldable pub read_csv : Text → Table
unfolding read_from
read_csv s = read_from row_start s

abbrev push_all : Text → Table → Table
push_all [] t = t
push_all (c ∷ f) t = push_char c (push_all f t)

push_all-push_field :
    (f : Text) (fields : List Text) (rows : Table)
    → push_all f (push_field (fields ∷ rows)) ≡ (f ∷ fields) ∷ rows
push_all-push_field [] fields rows = refl
push_all-push_field (c ∷ f) fields rows = rw (push_all-push_field f fields rows) refl

-- What `quoted_field` puts after the opening quote.
read_from-doubled :
    (f rest : Text)
    → read_from quoted ((doubled f ++ (quote ∷ [])) ++ rest) ≡ push_all f (read_from closing rest)
unfolding read_from
read_from-doubled [] rest = refl
read_from-doubled (c ∷ f) rest = ground (arith, read_from-doubled f rest)

read_from-plain :
    (f rest : Text)
    → needs_quotes f ≡ false
    → read_from plain (f ++ rest) ≡ push_all f (read_from plain rest)
unfolding read_from
read_from-plain [] rest h = refl
read_from-plain (c ∷ f) rest h = ground (arith, read_from-plain f rest)

module _ (mode : Mode) (starts : (c : ℕ) → step mode c ≡ opening c) where
  read_from-opening :
      (f : Text) (d : ℕ) (rest : Text)
      → needs_quotes f ≡ false
      → eqb d quote ≡ false
      → read_from mode (f ++ (d ∷ rest)) ≡ push_all f (read_from plain (d ∷ rest))
  unfolding read_from
  read_from-opening [] d rest h k = ground (arith, starts d)
  read_from-opening (c ∷ f) d rest h k = ground (arith, starts c, read_from-plain f (d ∷ rest))

  read_from-write_field :
      (f : Text) (d : ℕ) (rest : Text)
      → eqb d quote ≡ false
      → read_from mode (write_field f ++ (d ∷ rest)) ≡ push_all f (read_from plain (d ∷ rest))
  unfolding read_from
  read_from-write_field f d rest k = elim (Bool-cases (needs_quotes f)) [
    | inl special ↦ ground (arith, special, starts quote, read_from-doubled f (d ∷ rest))
    | inr free ↦ ground (arith, free, read_from-opening f d rest free k)
  ]

read_from-joined :
    (mode : Mode) (f : Text) (fields : List Text) (rest : Text)
    → ((c : ℕ) → step mode c ≡ opening c)
    → read_from mode (joined (f ∷ fields) ++ (carriage_return ∷ line_feed ∷ rest))
      ≡ (f ∷ fields) ∷ read_from row_start rest
unfolding read_from
read_from-joined mode f [] rest starts =
    rw
      (
        read_from-write_field mode starts f carriage_return (line_feed ∷ rest) refl,
        push_all-push_field f [] (read_from row_start rest),
      )
      refl
read_from-joined mode f (g ∷ fields) rest starts =
    let rest' = carriage_return ∷ line_feed ∷ rest in
    rw
      (
        append_assoc (write_field f) (comma ∷ joined (g ∷ fields)) rest',
        read_from-write_field mode starts f comma (joined (g ∷ fields) ++ rest') refl,
        read_from-joined field_start g fields rest (λ c. refl),
        push_all-push_field f (g ∷ fields) (read_from row_start rest),
      )
      refl

read_from-writerow :
    (f : Text) (fields : List Text) (rest : Text)
    → read_from row_start (writerow (f ∷ fields) ++ rest) ≡ (f ∷ fields) ∷ read_from row_start rest
unfolding read_from
read_from-writerow [] [] rest = refl
read_from-writerow (c ∷ f) [] rest =
    rw (append_assoc (write_field (c ∷ f)) (carriage_return ∷ line_feed ∷ []) rest)
      (read_from-joined row_start (c ∷ f) [] rest (λ c. refl))
read_from-writerow f (g ∷ fields) rest =
    rw (append_assoc (joined (f ∷ g ∷ fields)) (carriage_return ∷ line_feed ∷ []) rest)
      (read_from-joined row_start f (g ∷ fields) rest (λ c. refl))

-- No row is empty.
abbrev pub Filled : Table → Type 0
Filled [] = Unit
Filled ([] ∷ rows) = ⊥
Filled ((f ∷ fields) ∷ rows) = Filled rows

-- Reading back what `csv.writer` writes gives the rows that were written, if none of them is empty.
pub read_csv-writerows : (rows : Table) → Filled rows → read_csv (writerows rows) ≡ rows
unfolding writerows read_csv
read_csv-writerows [] h = refl
read_csv-writerows ([] ∷ rows) h = elim h [ ]
read_csv-writerows ((f ∷ fields) ∷ rows) h =
    rw (read_from-writerow f fields (writerows rows), read_csv-writerows rows h) refl
