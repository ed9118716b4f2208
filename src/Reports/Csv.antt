-- ===== src/Reports/Csv.antt =====
-- What `csv.writer` writes with the dialect that it has by default: commas, double quotes where a
-- field needs them, a quote doubled, and a carriage return and a line feed at the end of a row.
use library_api.Prelude.{ℕ, Bool, false, ◌||◌, List, [], ◌∷◌, ◌++◌, eqb, if◌then◌else◌}
use library_api.Reports.Text.{Text}

abbrev pub comma : ℕ
comma = 44

abbrev pub quote : ℕ
quote = 34

abbrev pub carriage_return : ℕ
carriage_return = 13

abbrev pub line_feed : ℕ
line_feed = 10

abbrev pub is_special : ℕ → Bool
is_special c = eqb c comma || (eqb c quote || (eqb c carriage_return || eqb c line_feed))

abbrev pub needs_quotes : Text → Bool
needs_quotes [] = false
needs_quotes (c ∷ s) = is_special c || needs_quotes s

abbrev pub doubled : Text → Text
doubled [] = []
doubled (c ∷ s) = let rest = doubled s in if eqb c quote then quote ∷ quote ∷ rest else c ∷ rest

abbrev pub quoted_field : Text → Text
quoted_field f = quote ∷ (doubled f ++ (quote ∷ []))

abbrev pub write_field : Text → Text
write_field f = if needs_quotes f then quoted_field f else f

-- The fields of a row, joined.
abbrev pub joined : List Text → Text
joined [] = []
joined (f ∷ []) = write_field f
joined (f ∷ g ∷ fields) = write_field f ++ (comma ∷ joined (g ∷ fields))

-- The only field of a row is quoted when it is empty too.
abbrev pub lone_field : Text → Text
lone_field [] = quoted_field []
lone_field f = write_field f

abbrev pub row_text : List Text → Text
row_text [] = []
row_text (f ∷ []) = lone_field f
row_text (f ∷ g ∷ fields) = joined (f ∷ g ∷ fields)

abbrev pub writerow : List Text → Text
writerow fields = row_text fields ++ (carriage_return ∷ line_feed ∷ [])

unfoldable pub writerows : List (List Text) → Text
writerows [] = []
writerows (fields ∷ rows) = writerow fields ++ writerows rows
