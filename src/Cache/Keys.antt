-- ===== src/Cache/Keys.antt =====
-- The keys and patterns of app/cache/keys.py and of the services: f-strings, in which `None` is
-- the text of a missing filter.
use Prim.Native.String.{◌++◌}
use library_api.Prelude.{ℕ, String, Bool, true, false, Option, none, some}
use library_api.Models.Loan.{LoanStatus}
use library_api.External.{External}

abbrev pub str_text : Option String → String
str_text none = "None"
str_text (some s) = s

abbrev pub str_flag : Option Bool → String
str_flag none = "None"
str_flag (some true) = "True"
str_flag (some false) = "False"

abbrev pub str_status : Option LoanStatus → String
str_status none = "None"
str_status (some LoanStatus.active) = "LoanStatus.ACTIVE"
str_status (some LoanStatus.returned) = "LoanStatus.RETURNED"
str_status (some LoanStatus.cancelled) = "LoanStatus.CANCELLED"

abbrev pub book_detail_key : String → String
book_detail_key book_id = "book:" ++ book_id

abbrev pub loan_item_key : String → String
loan_item_key loan_id = "loans:item:" ++ loan_id

abbrev pub loans_user_prefix : String → String
loans_user_prefix user_id = "loans:user:" ++ (user_id ++ ":")

module _ ⦃ext : External⦄ where
  unfoldable pub books_list_key :
      ℕ → ℕ → Option String → Option String → Option String → Option Bool → String
  books_list_key page size title category author available =
      "books:list:"
      ++ (ext.str page
          ++ (":"
              ++ (ext.str size
                  ++ (":"
                      ++ (str_text title
                          ++ (":"
                              ++ (str_text category
                                  ++ (":"
                                      ++ (str_text author ++ (":" ++ str_flag available))))))))))

  unfoldable pub loans_list_key :
      ℕ → ℕ → Option String → Option String → Option LoanStatus → Option Bool → String
  loans_list_key page size user_id book_id status overdue =
      "loans:list:"
      ++ (ext.str page
          ++ (":"
              ++ (ext.str size
                  ++ (":"
                      ++ (str_text user_id
                          ++ (":"
                              ++ (str_text book_id
                                  ++ (":"
                                      ++ (str_status status ++ (":" ++ str_flag overdue))))))))))

  unfoldable pub loans_user_key : String → ℕ → ℕ → Option LoanStatus → String
  loans_user_key user_id page size status =
      loans_user_prefix user_id
      ++ (ext.str page ++ (":" ++ (ext.str size ++ (":" ++ str_status status))))
