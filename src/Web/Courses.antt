-- ===== src/Web/Courses.antt =====
-- How the kinds of endpoints run: those for administrators, for borrowers, and those that read.
use library_api.Prelude.{
  ℕ, String, ◌≡◌, refl, inl, inr, true, false, Option, List, select, if◌then◌else◌,
}
use library_api.Prelude.Int.{ℤ}
use library_api.Table.{Scalar, value, raises, scalar_one_or_none}
use library_api.Errors.{business_rule, unauthorized}
use library_api.Models.User.{User}
use library_api.Models.Loan.{LoanStatus}
use library_api.Models.Reservation.{Reservation, ReservationStatus}
use library_api.Responses.{Document, Page}
use library_api.Exec.{Exec, pure, scalar, raise_if, or_raise, run, gets, ◌>>=◌, ◌>>◌}
use library_api.External.{External}
use library_api.World.{State}
use library_api.Users.Service.{TokenResponse}
use library_api.Users.Service as Users
use library_api.Users.Repository as UserRows
use library_api.Authors.Service as Authors
use library_api.Authors.Repository as AuthorRows
use library_api.Loans.Queries
use library_api.Reservations.Service as Reservations
use library_api.Security.{get_current_admin}
use library_api.Pagination.{page_query}
use library_api.Loans.Controller as LoanController
use library_api.Reservations.Controller as ReservationController
use library_api.Api.{Request, serve}
use library_api.Web.Reads.{
  Reading, Keeps, Reading-refl, Keeps-bind, raise_if-Keeps, or_raise-Keeps, page_query-Keeps,
  list_by_user_paginated-Keeps,
}
use library_api.Web.{Endpoint}
use library_api.Web.Callers.{tick}
use library_api.Web.Access.{
  Asks, Course, reads, serves, administrator, own, MayAsk, Borrows, course_of_admin, course_of_user,
}
use library_api.Web.Owners.{course_of_own_loan}

module _ ⦃ext : External⦄ where
  -- An endpoint for administrators that writes.
  pub admin_serves :
      {endpoint : Endpoint} {A : Type 0} (token : ext.Token) (m : Exec State A) (r : Request)
      (w : State)
      → Asks endpoint r
      → ((s : State) → (m s).1 ≡ serve r s)
      → Course token endpoint w ((get_current_admin token >> m) w).1
  admin_serves token m r w asked same = course_of_admin token m w λ user who admin.
      serves (tick w) r asked (record { db = refl; identifiers = refl }) (same (tick w))
        (administrator user who admin)

  pub later :
      {endpoint : Endpoint} {A : Type 0} {token : ext.Token} (m : Exec State A) (w : State)
      → Keeps m
      → Course token endpoint w (m (tick w)).1
  later m w k = let p = k (tick w) in reads (record { db = p.db; identifiers = p.identifiers })

  -- An endpoint for administrators that reads.
  pub admin_reads :
      {endpoint : Endpoint} {A : Type 0} (token : ext.Token) (m : Exec State A) (w : State)
      → Keeps m
      → Course token endpoint w ((get_current_admin token >> m) w).1
  admin_reads token m w k = course_of_admin token m w λ user who admin. later m w k

  -- A page of rows.
  pub page_reads :
      {A : Type 0} (page size : ℤ) (m : ℕ × ℕ → Exec State A)
      → ((query : ℕ × ℕ) → Keeps (m query))
      → Keeps (page_query page size >>= m)
  page_reads page size m k = Keeps-bind (page_query page size) m (page_query-Keeps page size) k

  pub own_loan_serves :
      {endpoint : Endpoint} {A : Type 0} (message : String) (token : ext.Token) (loan_id : String)
      (m : Exec State A) (r : Request) (w : State)
      → Asks endpoint r
      → ((s : State) → (m s).1 ≡ serve r s)
      → ((user : User) → Borrows user loan_id (tick w) → MayAsk user (tick w) r)
      → Course token endpoint w ((LoanController.own_loan message token loan_id >> m) w).1
  own_loan_serves message token loan_id m r w asked same may =
      course_of_own_loan message token loan_id m w λ user s before who allowed.
        serves s r asked before (same s) (elim allowed [
          | inl admin ↦ administrator user who admin
          | inr borrows ↦ own user who (may user borrows)
        ])

  pub by_id-Keeps : (user_id : String) → Keeps (Users.get_by_id user_id)
  by_id-Keeps user_id w = or_raise-Keeps (UserRows.find_by_id user_id w) _ w

  pub get_author-Keeps : (author_id : String) → Keeps (Authors.get_author author_id)
  unfolding Authors.get_author
  get_author-Keeps author_id w = or_raise-Keeps (AuthorRows.find_by_id author_id w) _ w

  scalar-Keeps : {A : Type 0} (o : Scalar A) → Keeps (scalar o)
  scalar-Keeps (value o) = Reading-refl
  scalar-Keeps (raises e) = Reading-refl

  found-Keeps : (email : String) → Keeps (UserRows.find_by_email email)
  found-Keeps email w =
      scalar-Keeps (scalar_one_or_none (select (UserRows.is_active_with email) w.users)) w

  create_access_token-Keeps :
      (user : User) (w : State) → Reading w (Users.create_access_token user.id user.role w).1
  unfolding Users.create_access_token
  create_access_token-Keeps user w = record { db = refl; identifiers = refl }

  pub login-Keeps : (input : Users.Login) → Keeps (Users.login input)
  unfolding Users.login
  login-Keeps input w =
      Keeps-bind (UserRows.find_by_email input.email) after (found-Keeps input.email)
        (λ found.
          Keeps-bind (or_raise found (business_rule "Credenciais inválidas")) checked
            (or_raise-Keeps found _)
            (λ user.
              Keeps-bind (test user) (λ _. sign user) (test-Keeps user) (λ _. signed-Keeps user)))
        w
    where
      test : User → Exec State (Unit {0})
      test user =
          raise_if (if ext.verify input.password user.password then false else true)
            (business_rule "Credenciais inválidas")

      sign : User → Exec State (TokenResponse ext.Token)
      sign user = run (Users.create_access_token user.id user.role) >>= λ token.
          pure (record { access_token = token })

      checked : User → Exec State (TokenResponse ext.Token)
      checked user = test user >> sign user

      after : Option User → Exec State (TokenResponse ext.Token)
      after found = or_raise found (business_rule "Credenciais inválidas") >>= checked

      test-Keeps : (user : User) → Keeps (test user)
      test-Keeps user =
          raise_if-Keeps (if ext.verify input.password user.password then false else true) _

      signed-Keeps : (user : User) → Keeps (sign user)
      signed-Keeps user w = create_access_token-Keeps user w

  pub list_loans_by_user-Course :
      {endpoint : Endpoint} (token : ext.Token) (user_id : String) (page size : ℤ)
      (status : Option LoanStatus) (w : State)
      → Course token endpoint w
          (LoanController.list_loans_by_user token user_id page size status w).1
  unfolding LoanController.list_loans_by_user
  list_loans_by_user-Course token user_id page size status w =
      course_of_user token listing w λ user who. later (listing user) w (
        page_reads page size (checked user) λ query.
          Keeps-bind (test user) (λ _. pages query)
            (raise_if-Keeps (LoanController.user_is_not_admin_and_does_not_own_loan user user_id) _)
            (λ _. list_by_user_paginated-Keeps user_id query.0 query.1 status))
    where
      test : User → Exec State (Unit {0})
      test user =
          raise_if (LoanController.user_is_not_admin_and_does_not_own_loan user user_id)
            (unauthorized "Você só pode acessar seus próprios empréstimos")

      pages : ℕ × ℕ → Exec State Document
      pages query = Queries.list_by_user_paginated user_id query.0 query.1 status

      checked : User → ℕ × ℕ → Exec State Document
      checked user query = test user >> pages query

      listing : User → Exec State Document
      listing user = page_query page size >>= checked user

  pub list_reservations-Course :
      {endpoint : Endpoint} (oldest_first : List Reservation → List Reservation) (token : ext.Token)
      (page size : ℤ) (user_id book_id : Option String) (status : Option ReservationStatus)
      (w : State)
      → Course token endpoint w
          (ReservationController.list_reservations oldest_first token page size user_id book_id
            status w).1
  unfolding ReservationController.list_reservations
  list_reservations-Course oldest_first token page size user_id book_id status w =
      course_of_user token listing w λ user who. later (listing user) w (
        page_reads page size (checked user) λ query.
          Keeps-bind (test user) (λ _. pages user query)
            (raise_if-Keeps (ReservationController.asks_foreign user user_id) _)
            (λ _. Reading-refl))
    where
      test : User → Exec State (Unit {0})
      test user =
          raise_if (ReservationController.asks_foreign user user_id)
            (unauthorized "Você só pode listar suas reservas")

      pages : User → ℕ × ℕ → Exec State (Page Reservation)
      pages user query = gets (
          Reservations.list_paginated oldest_first query.0 query.1
            (ReservationController.visible_user_id user user_id) book_id status)

      checked : User → ℕ × ℕ → Exec State (Page Reservation)
      checked user query = test user >> pages user query

      listing : User → Exec State (Page Reservation)
      listing user = page_query page size >>= checked user
