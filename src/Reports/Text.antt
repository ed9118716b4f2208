-- ===== src/Reports/Text.antt =====
-- What app/domain/reports/services/report_service.py uses of Python's texts: a text is the list of
-- its code points; `isoformat` and `strftime` of a datetime, and the two ways in which an amount is
-- written.
use Prim.Native.Char.{code}
use library_api.Prelude.{
  ℕ, zero, suc, ◌+◌, ◌-◌, ◌*◌, ◌/◌, ◌%◌, String, Bool, ◌&&◌, ◌||◌, not, List, [], ◌∷◌, ◌++◌, eqb,
  ltb, if◌then◌else◌,
}
use library_api.Datetime.{Datetime, Date, date_of, microseconds_per_day}
use library_api.Models.Loan.{Cents}
use library_api.External.{External}

abbrev pub Text : Type 0
Text = List ℕ

abbrev pub codes : String → Text
codes String.[] = []
codes (String.◌∷◌ c s) = code c ∷ codes s

-- The last decimal digits of a number, with zeros in front: the format `0{k}d`.
abbrev pub last_digits : ℕ → ℕ → Text
last_digits zero n = []
last_digits (suc k) n = last_digits k (n / 10) ++ ((b'0' + n % 10) ∷ [])

-- A day of the calendar, counted from 1.
pub record Civil : Type 0 where
  pub year : ℕ
  pub month : ℕ
  pub day : ℕ

abbrev pub month_lengths : Bool → List ℕ
month_lengths leap_year =
    31 ∷ (if leap_year then 29 else 28) ∷ 31 ∷ 30 ∷ 31 ∷ 30 ∷ 31 ∷ 31 ∷ 30 ∷ 31 ∷ 30 ∷ 31 ∷ []

-- The month and the day of a day of the year, counted from 0.
abbrev pub in_month : ℕ → List ℕ → ℕ → ℕ × ℕ
in_month month [] n = (month, n + 1)
in_month month (length ∷ lengths) n =
    let later = in_month (month + 1) lengths (n - length) in
    if ltb n length then (month, n + 1) else later

-- `date.fromordinal`, in cycles of 400, 100, 4 and 1 years.
unfoldable pub civil : Date → Civil
civil date =
    let n₄₀₀ = date % 146_097 in
    let centuries = n₄₀₀ / 36_524 in
    let n₁₀₀ = n₄₀₀ % 36_524 in
    let n₄ = n₁₀₀ % 1_461 in
    let years = n₄ / 365 in
    let year = date / 146_097 * 400 + centuries * 100 + n₁₀₀ / 1_461 * 4 + years + 1 in
    let leap_year = eqb years 3 && (not (eqb (n₁₀₀ / 1_461) 24) || eqb centuries 3) in
    let (month, day) = in_month 1 (month_lengths leap_year) (n₄ % 365) in
    if eqb years 4 || eqb centuries 4
    then record { year = year - 1; month = 12; day = 31 }
    else record { year = year; month = month; day = day }

-- The date in `isoformat`, and `strftime("%Y-%m-%d")` of a year that has four digits.
unfoldable pub date_text : Datetime → Text
unfolding civil
date_text d =
    let c = civil (date_of d) in
    last_digits 4 c.year ++ (b'-' ∷ (last_digits 2 c.month ++ (b'-' ∷ last_digits 2 c.day)))

-- The microseconds are left out where they are zero.
abbrev pub fraction : ℕ → Text
fraction microseconds = if eqb microseconds 0 then [] else b'.' ∷ last_digits 6 microseconds

unfoldable pub isoformat : Datetime → Text
unfolding date_text
isoformat d =
    let time = d % microseconds_per_day in
    let seconds = time / 1_000_000 in
    date_text d
    ++ (b'T'
        ∷ (last_digits 2 (seconds / 3_600)
            ++ (b':'
                ∷ (last_digits 2 (seconds / 60 % 60)
                    ++ (b':' ∷ (last_digits 2 (seconds % 60) ++ fraction (time % 1_000_000)))))))

module _ ⦃ext : External⦄ where
  abbrev pub str : ℕ → Text
  str n = codes (ext.str n)

  -- `f"{float(amount):.2f}"`
  unfoldable pub two_decimals : Cents → Text
  two_decimals amount = str (amount / 100) ++ (b'.' ∷ last_digits 2 (amount % 100))

  -- `repr(float(amount))`, which ends with the last digit that is not zero, and has one at least.
  unfoldable pub float_repr : Cents → Text
  float_repr amount =
      str (amount / 100)
      ++ (b'.'
          ∷ (if eqb (amount % 10) 0
              then last_digits 1 (amount % 100 / 10)
              else last_digits 2 (amount % 100)))
