-- ===== src/Loans/Coherence.antt =====
-- What `get_loan` answers after a write, whatever the cache held before.
use library_api.Prelude.{String, ◌≡◌, none, some, arith, eq_refl}
use library_api.Models.Loan.{Loan, loan_row}
use library_api.Responses.{Document, PayLoanFineResponse, RenewLoanResponse}
use library_api.Table.{find_where_self}
use library_api.Exec.{ok}
use library_api.External.{External}
use library_api.World.{State}
use library_api.Effects.{Ends-ok, Unchanged}
use library_api.Cache.{cached, read_through}
use library_api.Cache.Keys.{loan_item_key}
use library_api.Cache.Laws.{cached-delete, cached-delete_pattern}
use library_api.Loans.Repository
use library_api.Loans.Queries.{get_loan, serialize_loan}
use library_api.Loans.Service.{renew_loan, pay_fine, invalidate_loan_cache}
use library_api.Loans.Effects.Renew.{Renewed, renew_loan-Ends}
use library_api.Loans.Effects.Pay.{Paid, pay_fine-Ends, paid_loan}
use library_api.Loans.Payment.{Paid-again}

module _ ⦃ext : External⦄ where
  -- `_invalidate_loan_cache` leaves no document of the loan.
  pub item_gone :
      (user_id loan_id : String) (w : State)
      → cached (invalidate_loan_cache user_id loan_id w).cache (loan_item_key loan_id) ≡ none
  item_gone user_id loan_id w =
      rw (cached-delete_pattern, cached-delete_pattern, cached-delete, eq_refl) (ground arith)

  get_loan_miss :
      (loan_id : String) (w : State) (loan : Loan)
      → cached w.cache (loan_item_key loan_id) ≡ none
      → Repository.find_by_id loan_id w ≡ some loan
      → (get_loan loan_id w).0 ≡ ok (Document.loan (serialize_loan loan w).0)
  unfolding get_loan read_through
  get_loan_miss loan_id w loan miss found = ground (arith, miss, found)

  get_loan_hit :
      (loan_id : String) (w : State) (d : Document)
      → cached w.cache (loan_item_key loan_id) ≡ some d
      → (get_loan loan_id w).0 ≡ ok d
  unfolding get_loan read_through
  get_loan_hit loan_id w d hit = ground (arith, hit)

  -- Once `pay_fine` has returned for a loan, `get_loan` answers with the loan as it was paid,
  -- whatever the cache held before.
  pub get_loan-pay_fine :
      (loan_id : String) (w : State) (loan : Loan) (r : PayLoanFineResponse)
      → Repository.find_active_by_id_for_update loan_id w ≡ some loan
      → (pay_fine loan_id w).0 ≡ ok r
      → let w' = (pay_fine loan_id w).1 in
        (get_loan loan_id w').0
        ≡ ok (Document.loan (serialize_loan (paid_loan loan (ext.clock w.readings)) w').0)
  get_loan-pay_fine loan_id w loan r active paid =
      let w' = (pay_fine loan_id w).1 in
      let (_, p) =
        Ends-ok (Paid loan_id w) (Unchanged w) (pay_fine loan_id w) (pay_fine-Ends loan_id w)
          paid in
      let same : p.loan ≡ loan = ground (arith, p.active) in
      let (found, _, key) = find_where_self loan_id Repository.is_active w'.loans (Paid-again p) in
      let gone : cached w'.cache (loan_item_key p.loan.id) ≡ none =
        rw p.cache (item_gone p.loan.user_id p.loan.id w) in
      get_loan_miss loan_id w' (paid_loan loan (ext.clock w.readings)) (rw key at gone)
        (ground (arith, found, key, same))

  -- If a document of the loan is cached, then after `renew_loan` has returned `get_loan` still
  -- answers with that document.
  pub get_loan-renew_loan :
      (loan_id : String) (w : State) (d : Document) (r : RenewLoanResponse)
      → cached w.cache (loan_item_key loan_id) ≡ some d
      → (renew_loan loan_id w).0 ≡ ok r
      → (get_loan loan_id (renew_loan loan_id w).1).0 ≡ ok d
  get_loan-renew_loan loan_id w d r hit renewed =
      let (_, p) =
        Ends-ok (Renewed loan_id w) (Unchanged w) (renew_loan loan_id w) (renew_loan-Ends loan_id w)
          renewed in
      get_loan_hit loan_id (renew_loan loan_id w).1 d (rw p.cache hit)
