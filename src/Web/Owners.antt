-- ===== src/Web/Owners.antt =====
-- The endpoints for one loan and for one reservation: what they have found out when they go on.
use mathlib.Core.Path.{subst}
use library_api.Prelude.{
  String, ◌≡◌, refl, sym, ◌⊎◌, inl, inr, true, arith, Bool-cases, Option-cases, eq_iff,
}
use library_api.Errors.{Error, domain, unauthorized, key_error, not_found}
use library_api.Models.User.{User}
use library_api.Models.Reservation.{Reservation}
use library_api.Responses.{Document}
use library_api.Exec.{Exec, Result, ok, err, ◌>>=◌, ◌>>◌}
use library_api.Effects.{bind-ok, bind-err}
use library_api.External.{External}
use library_api.World.{State}
use library_api.Security.{is_admin, get_current_user}
use library_api.Loans.Queries
use library_api.Loans.Controller.{own_loan, user_is_not_admin_and_does_not_own_loan}
use library_api.Reservations.Repository as Reservations
use library_api.Reservations.Controller.{own_reservation, is_foreign, get_reservation}
use library_api.Web.{Endpoint}
use library_api.Web.Reads.{Reading, get_loan-Keeps}
use library_api.Web.Callers.{tick, IsCaller, refused, accepted, get_current_user-Identified}
use library_api.Web.Access.{Borrows, Reserves, Course, reads}

module _ ⦃ext : External⦄ where
  -- What `own_loan` did.
  pub data LoanChecked (message : String) (token : ext.Token) (loan_id : String) (w : State)
      : Type 0 where
    stopped :
        (e : Error) (s : State)
        → Reading w s
        → own_loan message token loan_id w ≡ (err e, s)
        → LoanChecked message token loan_id w
    passed :
        (user : User) (s : State)
        → Reading w s
        → (Queries.get_loan loan_id (tick w)).1 ≡ s
        → IsCaller token w user
        → ((is_admin user ≡ true) ⊎ Borrows user loan_id (tick w))
        → own_loan message token loan_id w ≡ (ok tt, s)
        → LoanChecked message token loan_id w

  pub own_loan-LoanChecked :
      (message : String) (token : ext.Token) (loan_id : String) (w : State)
      → LoanChecked message token loan_id w
  unfolding own_loan
  own_loan-LoanChecked message token loan_id w = elim (get_current_user-Identified token w) [
    | refused e denial h ↦
        stopped (domain e) (tick w) (record { db = refl; identifiers = refl }) (ground (arith, h))
    | accepted user who h ↦
        let r = get_loan-Keeps loan_id (tick w) in
        go user who h (Queries.get_loan loan_id (tick w))
          (record { db = r.db; identifiers = r.identifiers }) refl
  ]
    where
      go :
          (user : User)
          → IsCaller token w user
          → get_current_user token w ≡ (ok user, tick w)
          → (x : Result Document × State) → Reading w x.1
          → Queries.get_loan loan_id (tick w) ≡ x
          → LoanChecked message token loan_id w
      go user who h (err e, s) same k = stopped e s same (ground (arith, h, k))
      go user who h (ok (Document.loan l), s) same k =
          elim (Bool-cases (user_is_not_admin_and_does_not_own_loan user l.user_id)) [
            | inl foreign ↦
                stopped (domain (unauthorized message)) s same (ground (arith, h, k, foreign))
            | inr fine ↦ elim (Bool-cases (is_admin user)) [
              | inl admin ↦
                  passed user s same (ground (arith, k)) who (inl admin)
                    (ground (arith, h, k, fine))
              | inr other ↦
                  passed user s same (ground (arith, k)) who
                    (inr (record {
                      loan = l;
                      answered = ground (arith, k);
                      owner = ground (arith, fine, other, eq_iff l.user_id user.id);
                    }))
                    (ground (arith, h, k, fine))
            ]
          ]
      go user who h (ok (Document.loan_page p), s) same k =
          stopped key_error s same (ground (arith, h, k))
      go user who h (ok (Document.book b), s) same k =
          stopped key_error s same (ground (arith, h, k))
      go user who h (ok (Document.book_page p), s) same k =
          stopped key_error s same (ground (arith, h, k))

  pub course_of_own_loan :
      {endpoint : Endpoint} {A : Type 0} (message : String) (token : ext.Token) (loan_id : String)
      (m : Exec State A) (w : State)
      → ((user : User) (s : State)
          → Reading w s
          → IsCaller token w user
          → ((is_admin user ≡ true) ⊎ Borrows user loan_id (tick w))
          → Course token endpoint w (m s).1)
      → Course token endpoint w ((own_loan message token loan_id >> m) w).1
  course_of_own_loan {endpoint} message token loan_id m w p =
      elim (own_loan-LoanChecked message token loan_id w) [
        | stopped e s same h ↦
            subst (λ x. Course token endpoint w x.1)
              (sym (bind-err (own_loan message token loan_id) (λ _. m) h)) (reads same)
        | passed user s same from who may h ↦
            subst (λ x. Course token endpoint w x.1)
              (sym (bind-ok (own_loan message token loan_id) (λ _. m) h)) (p user s same who may)
      ]

  -- What `own_reservation` did.
  data ReservationChecked (message : String) (token : ext.Token) (reservation_id : String)
      (w : State) : Type 0 where
    stopped :
        (e : Error)
        → own_reservation message token reservation_id w ≡ (err e, tick w)
        → ReservationChecked message token reservation_id w
    passed :
        (user : User) (reservation : Reservation)
        → IsCaller token w user
        → ((is_admin user ≡ true) ⊎ Reserves user reservation_id (tick w))
        → own_reservation message token reservation_id w ≡ (ok reservation, tick w)
        → ReservationChecked message token reservation_id w

  own_reservation-ReservationChecked :
      (message : String) (token : ext.Token) (reservation_id : String) (w : State)
      → ReservationChecked message token reservation_id w
  unfolding own_reservation
  own_reservation-ReservationChecked message token reservation_id w =
      elim (get_current_user-Identified token w) [
        | refused e denial h ↦ ReservationChecked.stopped (domain e) (ground (arith, h))
        | accepted user who h ↦ elim (Option-cases (Reservations.find_by_id reservation_id w)) [
          | inl unknown ↦
              ReservationChecked.stopped (domain (not_found "Reserva não encontrada"))
                (ground (arith, h, unknown))
          | inr (r, found) ↦ elim (Bool-cases (is_foreign user r.user_id)) [
            | inl foreign ↦
                ReservationChecked.stopped (domain (unauthorized message))
                  (ground (arith, h, found, foreign))
            | inr fine ↦ elim (Bool-cases (is_admin user)) [
              | inl admin ↦
                  ReservationChecked.passed user r who (inl admin) (ground (arith, h, found, fine))
              | inr other ↦
                  ReservationChecked.passed user r who
                    (inr (record {
                      reservation = r;
                      found = found;
                      owner = ground (arith, fine, other, eq_iff r.user_id user.id);
                    }))
                    (ground (arith, h, found, fine))
            ]
          ]
        ]
      ]

  pub course_of_own_reservation :
      {endpoint : Endpoint} {A : Type 0} (message : String) (token : ext.Token)
      (reservation_id : String) (m : Reservation → Exec State A) (w : State)
      → ((user : User) (r : Reservation)
          → IsCaller token w user
          → ((is_admin user ≡ true) ⊎ Reserves user reservation_id (tick w))
          → Course token endpoint w (m r (tick w)).1)
      → Course token endpoint w ((own_reservation message token reservation_id >>= m) w).1
  course_of_own_reservation {endpoint} message token reservation_id m w p =
      elim (own_reservation-ReservationChecked message token reservation_id w) [
        | ReservationChecked.stopped e h ↦
            subst (λ x. Course token endpoint w x.1)
              (sym (bind-err (own_reservation message token reservation_id) m h))
              (reads (record { db = refl; identifiers = refl }))
        | ReservationChecked.passed user r who may h ↦
            subst (λ x. Course token endpoint w x.1)
              (sym (bind-ok (own_reservation message token reservation_id) m h)) (p user r who may)
      ]

  pub course_of_reservation :
      {endpoint : Endpoint} (token : ext.Token) (reservation_id : String) (w : State)
      → Course token endpoint w (get_reservation token reservation_id w).1
  course_of_reservation {endpoint} token reservation_id w =
      elim (own_reservation-ReservationChecked "Você só pode listar suas reservas" token
        reservation_id w) [
          | ReservationChecked.stopped e h ↦
              subst (λ x. Course token endpoint w x.1) (sym h)
                (reads (record { db = refl; identifiers = refl }))
          | ReservationChecked.passed user r who may h ↦
              subst (λ x. Course token endpoint w x.1) (sym h)
                (reads (record { db = refl; identifiers = refl }))
        ]
