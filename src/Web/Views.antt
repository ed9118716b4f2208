-- ===== src/Web/Views.antt =====
-- Who gets to see what: the loans and the reservations that are answered to a user.
use library_api.Prelude.{
  ℕ, ◌*◌, ◌-◌, ◌≤◌, String, ◌≡◌, refl, ◌⊎◌, inl, inr, Bool, true, false, not, Option, some, List,
  [], ◌∷◌, arith, count, select, take, drop, ◌==◌, zero, suc, Bool-cases,
}
use library_api.Prelude.Int.{ℤ, pos_part}
use library_api.Pagination.{in_range}
use library_api.Models.User.{User}
use library_api.Models.Reservation.{Reservation, ReservationStatus}
use library_api.Responses.{Document, Page}
use library_api.Exec.{Exec, ok}
use library_api.Effects.{bind-ok, bind-err}
use library_api.External.{External}
use library_api.World.{State}
use library_api.Security.{is_admin, get_current_user}
use library_api.Cache.Again.{read_through-read_through}
use library_api.Cache.Keys.{loan_item_key}
use library_api.Loans.Queries
use library_api.Loans.Controller.{own_loan, get_loan}
use library_api.Reservations.Repository as Rows
use library_api.Reservations.Controller.{list_reservations, asks_foreign}
use library_api.Web.Callers.{tick, IsCaller}
use library_api.Web.Access.{Borrows}
use library_api.Web.Owners.{stopped, passed, own_loan-LoanChecked}

module _ ⦃ext : External⦄ where
  get_loan_again :
      (loan_id : String) (w : State) (d : Document)
      → (Queries.get_loan loan_id w).0 ≡ ok d
      → (Queries.get_loan loan_id (Queries.get_loan loan_id w).1).0 ≡ ok d
  unfolding Queries.get_loan
  get_loan_again loan_id w d h =
      read_through-read_through (loan_item_key loan_id) Queries.loan_cache_ttl_seconds
        (Queries.load_loan loan_id) (Queries.load_loan loan_id) w d h

  -- A document that the endpoint for one loan answers goes to an administrator, or to the user that
  -- the document names as the borrower.
  pub get_loan-Borrows :
      (token : ext.Token) (loan_id : String) (w : State) (d : Document)
      → (get_loan token loan_id w).0 ≡ ok d
      → (user : User) × IsCaller token w user
        × ((is_admin user ≡ true)
            ⊎ ((b : Borrows user loan_id (tick w)) × (d ≡ Document.loan b.loan)))
  get_loan-Borrows token loan_id w d answered =
      let message : String = "Você só pode visualizar seus próprios empréstimos" in
      let m : Unit → Exec State Document = λ _. Queries.get_loan loan_id in
      elim (own_loan-LoanChecked message token loan_id w) [
        | stopped e s same h ↦
            let b = bind-err (own_loan message token loan_id) m h in
            absurd (ground (arith, b, answered))
        | passed user s same from who may h ↦
            let b = bind-ok (own_loan message token loan_id) m h in
            (
              user,
              who,
              elim may [
                | inl admin ↦ inl admin
                | inr borrows ↦
                    let again =
                      get_loan_again loan_id (tick w) (Document.loan borrows.loan)
                        borrows.answered in
                    inr (borrows, ground (arith, b, answered, again, from))
              ],
            )
      ]

-- A reservation of somebody else.
abbrev pub of_other : String → Reservation → Bool
of_other user_id r = not (r.user_id == user_id)

count-select :
    (q p : Reservation → Bool) (l : List Reservation)
    → ((r : Reservation) → p r ≡ true → q r ≡ false)
    → count q (select p l) ≡ 0
count-select q p [] h = refl
count-select q p (r ∷ l) h = elim (Bool-cases (p r)) [
  | inl kept ↦ ground (arith, kept, h r kept, count-select q p l h)
  | inr dropped ↦ ground (arith, dropped, count-select q p l h)
]

count-drop :
    (q : Reservation → Bool) (n : ℕ) (l : List Reservation) → count q (drop n l) ≤ count q l
count-drop q zero l = ground arith
count-drop q (suc n) [] = ground arith
count-drop q (suc n) (r ∷ l) = ground (arith, count-drop q n l)

count-take :
    (q : Reservation → Bool) (n : ℕ) (l : List Reservation) → count q (take n l) ≤ count q l
count-take q zero l = ground arith
count-take q (suc n) [] = ground arith
count-take q (suc n) (r ∷ l) = ground (arith, count-take q n l)

module _ ⦃ext : External⦄ where
  -- A page of reservations that is answered to a user who is no administrator holds only his own
  -- reservations, whatever filters he asked for, if ordering the rows keeps the rows and his
  -- identifier is not empty.
  pub list_reservations-own :
      (oldest_first : List Reservation → List Reservation) (token : ext.Token) (page size : ℤ)
      (user_id book_id : Option String) (status : Option ReservationStatus) (w : State)
      (user : User) (p : Page Reservation)
      → ((q : Reservation → Bool) (l : List Reservation) → count q (oldest_first l) ≡ count q l)
      → get_current_user token w ≡ (ok user, tick w)
      → is_admin user ≡ false
      → (user.id == "") ≡ false
      → (list_reservations oldest_first token page size user_id book_id status w).0 ≡ ok p
      → count (of_other user.id) p.items ≡ 0
  unfolding list_reservations Rows.list_paginated Rows.passes
  list_reservations-own oldest_first token page size user_id book_id status w user p reorders who
        other named answered =
      let own = Rows.passes (some user.id) book_id status in
      let rows = oldest_first (select own w.reservations) in
      let from = (pos_part page - 1) * pos_part size in
      let shown : p.items ≡ take (pos_part size) (drop from rows) =
        elim (Bool-cases (in_range page size)) [
          | inl fits ↦ elim (Bool-cases (asks_foreign user user_id)) [
            | inl foreign ↦ ground (arith, who, fits, foreign, answered)
            | inr fine ↦ ground (arith, who, fits, fine, other, answered)
          ]
          | inr wrong ↦ ground (arith, who, wrong, answered)
        ] in
      let none_foreign =
        count-select (of_other user.id) own w.reservations
          (λ r passes. ground (arith, named, passes)) in
      rw shown (
        ground (
          arith,
          count-take (of_other user.id) (pos_part size) (drop from rows),
          count-drop (of_other user.id) from rows,
          reorders (of_other user.id) (select own w.reservations),
          none_foreign,
        ))
