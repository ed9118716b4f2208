-- ===== src/Web/Privileges.antt =====
-- What a request without an administrator's token can do to the accounts, and what anyone else than
-- the borrower gets to see of a loan.
use library_api.Prelude.{◌≡◌, refl, ◌∙◌, ◌⊎◌, inl, inr, true, List, arith, ap}
use library_api.Errors.{DomainException, domain}
use library_api.Models.User.{User, UserRole, user_row}
use library_api.Table.{insert}
use library_api.Exec.{ok, err}
use library_api.External.{External}
use library_api.World.{State}
use library_api.Effects.{Ends-state}
use library_api.EventBus.{service_bus}
use library_api.Users.Service as Users
use library_api.Users.Effects.{new_user, create_user-Ends}
use library_api.Users.Accounts.{get_current_user_lem}
use library_api.Loans.Service as Loans
use library_api.Loans.Effects.Return.{return_loan-Ends}
use library_api.Loans.Effects.Pay.{pay_fine-Ends}
use library_api.Loans.Effects.Cancel.{cancel_loan-Ends}
use library_api.Loans.Effects.Renew.{renew_loan-Ends}
use library_api.Reservations.Service as Reservations
use library_api.Reservations.Effects.{create_reservation-Ends, cancel_reservation-Ends}
use library_api.Security.{is_admin, get_current_admin}
use library_api.Api.{
  Request, serve, create_user, return_loan, pay_fine, cancel_loan, renew_loan, create_reservation,
  cancel_reservation,
}
use library_api.Web.{Endpoint, Orders, answer}
use library_api.Web.Callers.{tick, IsCaller}
use library_api.Web.Access.{reads, serves, Allowed, anyone, administrator, own, MayAsk}
use library_api.Web.Answers.{answer-Course}

module _ ⦃ext : External⦄ where
  -- The accounts are as they were, but for one more that is no administrator's.
  abbrev pub Unprivileged : List User → List User → Type 0
  Unprivileged us vs = (vs ≡ us) ⊎ ((u : User) × (u.role ≡ UserRole.user) × (vs ≡ insert u us))

  own-users :
      (user : User) (v w : State) (r : Request) → MayAsk user v r → (serve r w).users ≡ w.users
  unfolding serve
  own-users user v w (return_loan loan_id) may =
      Ends-state {R = λ s. s.users ≡ w.users} (Loans.return_loan service_bus loan_id w)
        (return_loan-Ends loan_id w) (λ _ _ p. p.users) (λ _ u. ap (λ d. d.users) u.db)
  own-users user v w (pay_fine loan_id) may =
      Ends-state {R = λ s. s.users ≡ w.users} (Loans.pay_fine loan_id w) (pay_fine-Ends loan_id w)
        (λ _ _ p. p.users) (λ _ u. ap (λ d. d.users) u.db)
  own-users user v w (cancel_loan loan_id) may =
      Ends-state {R = λ s. s.users ≡ w.users} (Loans.cancel_loan service_bus loan_id w)
        (cancel_loan-Ends loan_id w) (λ _ _ p. p.users) (λ _ u. ap (λ d. d.users) u.db)
  own-users user v w (renew_loan loan_id) may =
      Ends-state {R = λ s. s.users ≡ w.users} (Loans.renew_loan loan_id w)
        (renew_loan-Ends loan_id w) (λ _ _ p. p.users) (λ _ u. ap (λ d. d.users) u.db)
  own-users user v w (create_reservation input user_id) may =
      Ends-state {R = λ s. s.users ≡ w.users}
        (Reservations.create_reservation service_bus input user_id w)
        (create_reservation-Ends input user_id w) (λ _ _ p. p.rest.users)
        (λ _ u. ap (λ d. d.users) u.db)
  own-users user v w (cancel_reservation reservation_id) may =
      Ends-state {R = λ s. s.users ≡ w.users}
        (Reservations.cancel_reservation service_bus reservation_id w)
        (cancel_reservation-Ends reservation_id w) (λ _ _ p. p.rest.users)
        (λ _ u. ap (λ d. d.users) u.db)
  own-users user v w (Request.create_user _) may = elim may [ ]
  own-users user v w (Request.update_user _ _) may = elim may [ ]
  own-users user v w (Request.update_role _ _) may = elim may [ ]
  own-users user v w (Request.delete_user _) may = elim may [ ]
  own-users user v w (Request.create_author _) may = elim may [ ]
  own-users user v w (Request.update_author _ _) may = elim may [ ]
  own-users user v w (Request.delete_author _) may = elim may [ ]
  own-users user v w (Request.create_book _) may = elim may [ ]
  own-users user v w (Request.update_book _ _) may = elim may [ ]
  own-users user v w (Request.delete_book _) may = elim may [ ]
  own-users user v w (Request.create_loan _) may = elim may [ ]
  own-users user v w (Request.update_loan _ _) may = elim may [ ]
  own-users user v w Request.run_due_loans_job may = elim may [ ]

  create_user-Unprivileged :
      (input : Users.CreateUser) (w : State)
      → Unprivileged w.users (serve (create_user input) w).users
  unfolding serve
  create_user-Unprivileged input w =
      Ends-state {R = λ s. Unprivileged w.users s.users} (Users.create_user input w)
        (create_user-Ends input w) (λ _ _ p. inr (new_user input w, refl, p.users))
        (λ _ u. inl (ap (λ d. d.users) u.db))

  get_current_admin-admits :
      (token : ext.Token) (w : State) (user : User)
      → IsCaller token w user
      → is_admin user ≡ true
      → get_current_admin token w ≡ (ok user, tick w)
  unfolding get_current_admin
  get_current_admin-admits token w user who admin =
      let h = get_current_user_lem token user.id w user who.decoded who.known in
      ground (arith, h, admin)

  shifted : (us ss ts vs : List User) → ss ≡ us → vs ≡ ts → Unprivileged ss ts → Unprivileged us vs
  shifted us ss ts vs p e (inl h) = inl (e ∙ (h ∙ p))
  shifted us ss ts vs p e (inr (u, role, h)) = inr (u, role, e ∙ (h ∙ ap (insert u) p))

  Allowed-Unprivileged :
      {token : ext.Token} {w : State} (x : DomainException) (s : State) {r : Request}
      → (get_current_admin token w).0 ≡ err (domain x)
      → Allowed token w r
      → Unprivileged s.users (serve r s).users
  Allowed-Unprivileged x s no_admin (anyone input) = create_user-Unprivileged input s
  Allowed-Unprivileged {token} {w} x s no_admin (administrator user who admin) =
      let yes = get_current_admin-admits token w user who admin in
      absurd (ground (arith, yes, no_admin))
  Allowed-Unprivileged x s {r} no_admin (own user who may) = inl (own-users user _ s r may)

  -- A request whose token does not pass as an administrator's changes no account: whatever it asks
  -- for, every user stays as he was, and at most one new user comes, who is no administrator.
  pub answer-Unprivileged :
      (orders : Orders) (token : ext.Token) (e : Endpoint) (w : State) (x : DomainException)
      → (get_current_admin token w).0 ≡ err (domain x)
      → Unprivileged w.users (answer orders token e w).1.users
  answer-Unprivileged orders token e w x no_admin = elim (answer-Course orders token e w) [
    | reads same ↦ inl (ap (λ d. d.users) same.db)
    | serves s r asked before done allowed ↦
        shifted w.users s.users (serve r s).users (answer orders token e w).1.users
          (ap (λ d. d.users) before.db) (ap (λ (v : State). v.users) done)
          (Allowed-Unprivileged x s no_admin allowed)
  ]
