-- ===== src/Web/Access.antt =====
-- Who may change what: every request over HTTP only reads, or is one of the requests that write,
-- and then its token allows that.
use library_api.Prelude.{String, ◌≡◌, refl, sym, true, some}
use library_api.Models.User.{User, user_row}
use library_api.Models.Reservation.{Reservation, reservation_row}
use library_api.Responses.{Document, LoanResponse}
use library_api.Exec.{Exec, Result, ok, err, ◌>>=◌, ◌>>◌}
use library_api.External.{External}
use library_api.World.{State}
use library_api.Effects.{bind-ok, bind-err}
use mathlib.Core.Path.{subst}
use library_api.Security.{is_admin, get_current_user, get_current_admin}
use library_api.Loans.Queries
use library_api.Reservations.Repository as Reservations
use library_api.Users.Service.{CreateUser}
use library_api.Api.{
  Request, serve, create_user, return_loan, pay_fine, cancel_loan, renew_loan, create_reservation,
  cancel_reservation,
}
use library_api.Web.{Endpoint, reply_with}
use library_api.Web.Reads.{Reading}
use library_api.Web.Callers.{
  tick, IsCaller, refused, accepted, get_current_user-Identified, denied, admitted,
  get_current_admin-IdentifiedAdmin,
}

-- The request that an endpoint is for; the endpoints that read are for none.
abbrev pub Asks : Endpoint → Request → Type 0
Asks (Endpoint.create_user input) r = r ≡ Request.create_user input
Asks (Endpoint.update_user user_id input) r = r ≡ Request.update_user user_id input
Asks (Endpoint.delete_user user_id) r = r ≡ Request.delete_user user_id
Asks (Endpoint.update_user_role user_id input) r = r ≡ Request.update_role user_id input
Asks (Endpoint.create_author input) r = r ≡ Request.create_author input
Asks (Endpoint.update_author author_id input) r = r ≡ Request.update_author author_id input
Asks (Endpoint.delete_author author_id) r = r ≡ Request.delete_author author_id
Asks (Endpoint.create_book input) r = r ≡ Request.create_book input
Asks (Endpoint.update_book book_id input) r = r ≡ Request.update_book book_id input
Asks (Endpoint.delete_book book_id) r = r ≡ Request.delete_book book_id
Asks (Endpoint.create_loan input) r = r ≡ Request.create_loan input
Asks (Endpoint.update_loan loan_id input) r = r ≡ Request.update_loan loan_id input
Asks (Endpoint.return_loan loan_id) r = r ≡ Request.return_loan loan_id
Asks (Endpoint.pay_loan_fine loan_id) r = r ≡ Request.pay_fine loan_id
Asks (Endpoint.cancel_loan loan_id) r = r ≡ Request.cancel_loan loan_id
Asks (Endpoint.renew_loan loan_id) r = r ≡ Request.renew_loan loan_id
Asks (Endpoint.cancel_reservation reservation_id) r = r ≡ Request.cancel_reservation reservation_id
Asks (Endpoint.create_reservation input) r =
    (user_id : String) × (r ≡ Request.create_reservation input user_id)
Asks Endpoint.run_due_loans_job r = r ≡ Request.run_due_loans_job
Asks _ r = ⊥

module _ ⦃ext : External⦄ where
  -- The document of the loan that the endpoint reads names the user.
  pub record Borrows (user : User) (loan_id : String) (w : State) : Type 0 where
    pub loan : LoanResponse
    pub answered : (Queries.get_loan loan_id w).0 ≡ ok (Document.loan loan)
    pub owner : loan.user_id ≡ user.id

  pub record Reserves (user : User) (reservation_id : String) (w : State) : Type 0 where
    pub reservation : Reservation
    pub found : Reservations.find_by_id reservation_id w ≡ some reservation
    pub owner : reservation.user_id ≡ user.id

  -- What a user may ask for that is no administrator.
  abbrev pub MayAsk : User → State → Request → Type 0
  MayAsk user w (return_loan loan_id) = Borrows user loan_id w
  MayAsk user w (pay_fine loan_id) = Borrows user loan_id w
  MayAsk user w (cancel_loan loan_id) = Borrows user loan_id w
  MayAsk user w (renew_loan loan_id) = Borrows user loan_id w
  MayAsk user w (create_reservation input user_id) = user_id ≡ user.id
  MayAsk user w (cancel_reservation reservation_id) = Reserves user reservation_id w
  MayAsk user w _ = ⊥

  -- What a token allows: anyone may register, an administrator may do everything.
  pub data Allowed (token : ext.Token) (w : State) : Request → Type 0 where
    anyone : (input : CreateUser) → Allowed token w (create_user input)
    administrator :
        {r : Request} (user : User)
        → IsCaller token w user
        → is_admin user ≡ true
        → Allowed token w r
    own :
        {r : Request} (user : User)
        → IsCaller token w user
        → MayAsk user (tick w) r
        → Allowed token w r

  -- What a request over HTTP comes to.
  pub data Course (token : ext.Token) (endpoint : Endpoint) (w w' : State) : Type 0 where
    reads : Reading w w' → Course token endpoint w w'
    serves :
        (s : State) (r : Request)
        → Asks endpoint r
        → Reading w s
        → w' ≡ serve r s
        → Allowed token w r
        → Course token endpoint w w'

  reply_with-state :
      {A B : Type 0} (m : Exec State A) (f : A → B) (w : State) → (reply_with m f w).1 ≡ (m w).1
  reply_with-state {A} m f w = go (m w)
    where
      go : (x : Result A × State) → (reply_with (λ _. x) f w).1 ≡ x.1
      go (ok a, s) = refl
      go (err e, s) = refl

  pub course_of_reply :
      {endpoint : Endpoint} {A B : Type 0} (token : ext.Token) (m : Exec State A) (f : A → B)
      (w : State)
      → Course token endpoint w (m w).1
      → Course token endpoint w (reply_with m f w).1
  course_of_reply token m f w c = rw (reply_with-state m f w) c

  -- After the test for an administrator.
  pub course_of_admin :
      {endpoint : Endpoint} {A : Type 0} (token : ext.Token) (m : Exec State A) (w : State)
      → ((user : User)
          → IsCaller token w user
          → is_admin user ≡ true
          → Course token endpoint w (m (tick w)).1)
      → Course token endpoint w ((get_current_admin token >> m) w).1
  course_of_admin {endpoint} token m w p = elim (get_current_admin-IdentifiedAdmin token w) [
    | denied e denial h ↦
        subst (λ x. Course token endpoint w x.1)
          (sym (bind-err (get_current_admin token) (λ user. m) h))
          (reads (record { db = refl; identifiers = refl }))
    | admitted user who admin h ↦
        subst (λ x. Course token endpoint w x.1)
          (sym (bind-ok (get_current_admin token) (λ user. m) h)) (p user who admin)
  ]

  pub course_of_user :
      {endpoint : Endpoint} {A : Type 0} (token : ext.Token) (m : User → Exec State A) (w : State)
      → ((user : User) → IsCaller token w user → Course token endpoint w (m user (tick w)).1)
      → Course token endpoint w ((get_current_user token >>= m) w).1
  course_of_user {endpoint} token m w p = elim (get_current_user-Identified token w) [
    | refused e denial h ↦
        subst (λ x. Course token endpoint w x.1) (sym (bind-err (get_current_user token) m h))
          (reads (record { db = refl; identifiers = refl }))
    | accepted user who h ↦
        subst (λ x. Course token endpoint w x.1) (sym (bind-ok (get_current_user token) m h))
          (p user who)
  ]
