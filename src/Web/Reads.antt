-- ===== src/Web/Reads.antt =====
-- The parts of the endpoints that only read: they may use the clock and the cache.
use library_api.Prelude.{
  ℕ, String, ◌≡◌, refl, ◌∙◌, Bool, true, false, Option, none, some, List, [], ◌∷◌, arith,
  Option-cases, inl, inr,
}
use library_api.Prelude.Int.{ℤ}
use library_api.Errors.{DomainException}
use library_api.Models.Loan.{Loan, LoanStatus}
use library_api.Responses.{Document}
use library_api.Exec.{Exec, Result, ok, err, pure, raise_if, run, modify, or_raise, ◌>>=◌, ◌>>◌}
use library_api.External.{External}
use library_api.World.{State}
use library_api.Cache.{cached, read_through, set}
use library_api.Books.Service.{list_books_paginated, load_page, get_book, serialize_book}
use library_api.Books.Repository as Books
use library_api.Loans.Repository
use library_api.Loans.Queries.{
  serialize_loan, serialize_all, load_loan, get_loan, loan_page, list_paginated,
  list_by_user_paginated, find_user,
}
use library_api.Pagination.{page_query, page_of, in_range}

module _ ⦃ext : External⦄ where
  -- No table has changed and no identifier was drawn.
  pub record Reading (w w' : State) : Type 0 where
    pub db : w'.db ≡ w.db
    pub identifiers : w'.identifiers ≡ w.identifiers

  abbrev pub Keeps : {A : Type 0} → Exec State A → Type 0
  Keeps m = (w : State) → Reading w (m w).1

  pub Reading-refl : (w : State) → Reading w w
  Reading-refl w = record { db = refl; identifiers = refl }

  pub Reading-trans : {u v w : State} → Reading u v → Reading v w → Reading u w
  Reading-trans p q = record { db = q.db ∙ p.db; identifiers = q.identifiers ∙ p.identifiers }

  pub Keeps-bind :
      {A B : Type 0} (m : Exec State A) (f : A → Exec State B)
      → Keeps m
      → ((a : A) → Keeps (f a))
      → Keeps (m >>= f)
  Keeps-bind {A} {B} m f p q w = after (m w) (p w)
    where
      after : (x : Result A × State) → Reading w x.1 → Reading w (((λ _. x) >>= f) w).1
      after (ok a, s) r = Reading-trans r (q a s)
      after (err e, s) r = r

  pub raise_if-Keeps : (b : Bool) (e : DomainException) → Keeps (raise_if b e)
  raise_if-Keeps true e = Reading-refl
  raise_if-Keeps false e = Reading-refl

  pub or_raise-Keeps : {A : Type 0} (o : Option A) (e : DomainException) → Keeps (or_raise o e)
  or_raise-Keeps none e = Reading-refl
  or_raise-Keeps (some a) e = Reading-refl

  pub page_query-Keeps : (page size : ℤ) → Keeps (page_query page size)
  page_query-Keeps page size = page_of-Keeps (in_range page size)
    where
      page_of-Keeps : (b : Bool) → Keeps (page_of b page size)
      page_of-Keeps true = Reading-refl
      page_of-Keeps false = Reading-refl

  pub read_through-Keeps :
      (key : String) (expire : ℕ) (load : Exec State Document)
      → Keeps load
      → Keeps (read_through key expire load)
  unfolding read_through
  read_through-Keeps key expire load p w = elim (Option-cases (cached w.cache key)) [
    | inr (document, hit) ↦
        let found : read_through key expire load w ≡ (ok document, w) = ground (arith, hit) in
        rw found (Reading-refl w)
    | inl miss ↦
        let fill : Document → Exec State Document =
          λ document. modify (set key document expire) >> pure document in
        let missed : read_through key expire load w ≡ (load >>= fill) w = ground (arith, miss) in
        rw missed
          (Keeps-bind load fill p (λ document s. record { db = refl; identifiers = refl }) w)
  ]

  serialize_loan-Keeps : (loan : Loan) (w : State) → Reading w (serialize_loan loan w).1
  unfolding serialize_loan
  serialize_loan-Keeps loan w = ground arith

  serialize_all-Keeps : (loans : List Loan) (w : State) → Reading w (serialize_all loans w).1
  unfolding serialize_all
  serialize_all-Keeps [] w = Reading-refl w
  serialize_all-Keeps (loan ∷ loans) w =
      Reading-trans (serialize_loan-Keeps loan w)
        (serialize_all-Keeps loans (serialize_loan loan w).1)

  pub get_loan-Keeps : (loan_id : String) → Keeps (get_loan loan_id)
  unfolding get_loan load_loan
  get_loan-Keeps loan_id = read_through-Keeps _ _ (load_loan loan_id) (λ w.
      Keeps-bind (or_raise (Repository.find_by_id loan_id w) _)
        (λ loan. run (serialize_loan loan) >>= λ d. pure (Document.loan d))
        (or_raise-Keeps (Repository.find_by_id loan_id w) _) serialize_loan-Keeps w)

  loan_page-Keeps :
      (page size : ℕ) (query : State → (List Loan × ℕ) × State)
      → ((w : State) → Reading w (query w).1)
      → Keeps (loan_page page size query)
  loan_page-Keeps page size query p w =
      Reading-trans (p w) (serialize_all-Keeps (query w).0.0 (query w).1)

  pub list_paginated-Keeps :
      (page size : ℕ) (user_id book_id : Option String) (status : Option LoanStatus)
      (overdue : Option Bool)
      → Keeps (list_paginated page size user_id book_id status overdue)
  unfolding list_paginated Repository.list_paginated
  list_paginated-Keeps page size user_id book_id status overdue =
      read_through-Keeps _ _
        (loan_page page size (Repository.list_paginated page size user_id book_id status overdue))
        (loan_page-Keeps page size
          (Repository.list_paginated page size user_id book_id status overdue)
          (λ w. record { db = refl; identifiers = refl }))

  pub list_by_user_paginated-Keeps :
      (user_id : String) (page size : ℕ) (status : Option LoanStatus)
      → Keeps (list_by_user_paginated user_id page size status)
  unfolding list_by_user_paginated Repository.find_by_user_paginated Repository.list_paginated
  list_by_user_paginated-Keeps user_id page size status = read_through-Keeps _ _ _ (λ w.
      Keeps-bind (or_raise (find_user user_id w) _) (λ user. loan_page page size query)
        (or_raise-Keeps (find_user user_id w) _)
        (λ user. loan_page-Keeps page size query (λ w. record { db = refl; identifiers = refl })) w)
    where
      query : State → (List Loan × ℕ) × State
      query = Repository.find_by_user_paginated user_id page size status

  pub list_books_paginated-Keeps :
      (page size : ℕ) (title category author : Option String) (available : Option Bool)
      → Keeps (list_books_paginated page size title category author available)
  unfolding list_books_paginated
  list_books_paginated-Keeps page size title category author available =
      read_through-Keeps _ _ (load_page page size title category author available) Reading-refl

  pub get_book-Keeps : (book_id : String) → Keeps (get_book book_id)
  unfolding get_book
  get_book-Keeps book_id = read_through-Keeps _ _ _ (λ w.
      Keeps-bind (or_raise (Books.find_by_id book_id w) _)
        (λ listed. pure (Document.book (serialize_book listed)))
        (or_raise-Keeps (Books.find_by_id book_id w) _) (λ listed. Reading-refl) w)
