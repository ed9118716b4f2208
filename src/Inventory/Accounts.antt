-- ===== src/Inventory/Accounts.antt =====
-- The table of users along any run of requests.
use library_api.Prelude.{
  refl, sym, ap, ◌∙◌, String, ◌≡◌, Bool, true, false, Option, some, List, arith, eq_iff, ◌==◌,
  Bool-cases, inl, inr,
}
use library_api.Datetime.{Datetime}
use library_api.Models.User.{User, user_row}
use library_api.Table.{
  find_by_key, insert, save, find_by_key-save, find_by_key-insert, find_where_self,
}
use library_api.External.{External}
use library_api.World.{State}
use library_api.Effects.{Ends-state}
use library_api.EventBus.{service_bus}
use library_api.Users.Service as Users
use library_api.Users.Service.{renamed}
use library_api.Users.Repository.{is_active}
use library_api.Users.Effects.{
  Edited, new_user, create_user-Ends, update_user-Ends, update_role-Ends, delete_user-Ends,
}
use library_api.Authors.Service as Authors
use library_api.Authors.Effects.{create_author-Ends, update_author-Ends, delete_author-Ends}
use library_api.Books.Service as Books
use library_api.Loans.Service as Loans
use library_api.Reservations.Service as Reservations
use library_api.Books.Effects.{create_book-Ends, update_book-Ends, delete_book-Ends}
use library_api.Loans.Effects.Create.{create_loan-Ends}
use library_api.Loans.Effects.Return.{return_loan-Ends}
use library_api.Loans.Effects.Pay.{pay_fine-Ends}
use library_api.Loans.Effects.Update.{update_loan-Ends}
use library_api.Loans.Effects.Cancel.{cancel_loan-Ends}
use library_api.Loans.Effects.Renew.{renew_loan-Ends}
use library_api.Reservations.Effects.{create_reservation-Ends, cancel_reservation-Ends}
use library_api.Notifications.Once.{execute-Delivered}
use library_api.Api.{
  Request, create_user, update_user, update_role, delete_user, create_author, update_author,
  delete_author, create_book, update_book, delete_book, create_loan, return_loan, pay_fine,
  update_loan, cancel_loan, renew_loan, create_reservation, cancel_reservation, run_due_loans_job,
  serve,
}

-- What no method writes anew.
abbrev pub credentials : User → String × String × Datetime
credentials u = (u.email, u.password, u.created_at)

-- What a request may do to the table of users: only an active user's row is written back.
pub data Change (us vs : List User) : Type 0 where
  stay : vs ≡ us → Change us vs
  join : (u : User) → vs ≡ insert u us → Change us vs
  rewrite :
      (old new : User)
      → find_by_key new.id us ≡ some old
      → old.is_active ≡ true
      → credentials new ≡ credentials old
      → vs ≡ save new us
      → Change us vs

renamed_kept :
    (name : Option String) (u : User)
    → ((renamed name u).id ≡ u.id) × (credentials (renamed name u) ≡ credentials u)
renamed_kept name u = ground arith

module _ ⦃ext : External⦄ where
  Edited-Change :
      {user_id : String} {w w' : State} (f : User → User)
      → Edited user_id f w w'
      → ((u : User) → ((f u).id ≡ u.id) × (credentials (f u) ≡ credentials u))
      → Change w.users w'.users
  Edited-Change {user_id} {w} f p kept =
      let (found, active, key) = find_where_self user_id is_active w.users p.found in
      rewrite p.user (f p.user) (rw ((kept p.user).0) found) active ((kept p.user).1) p.users

  pub serve-Change : (r : Request) (w : State) → Change w.users (serve r w).users
  unfolding serve
  serve-Change (create_user input) w =
      Ends-state (Users.create_user input w) (create_user-Ends input w)
        (λ _ _ p. join (new_user input w) p.users) (λ _ u. stay (rw u.db refl))
  serve-Change (update_user user_id input) w =
      Ends-state (Users.update_user user_id input w) (update_user-Ends user_id input w)
        (λ _ _ p. Edited-Change (renamed input.name) p (renamed_kept input.name))
        (λ _ u. stay (rw u.db refl))
  serve-Change (update_role user_id input) w =
      Ends-state (Users.update_role user_id input w) (update_role-Ends user_id input w)
        (λ _ _ p. Edited-Change _ p (λ u. (refl, refl))) (λ _ u. stay (rw u.db refl))
  serve-Change (delete_user user_id) w =
      Ends-state (Users.delete_user user_id w) (delete_user-Ends user_id w)
        (λ _ _ p. Edited-Change _ p (λ u. (refl, refl))) (λ _ u. stay (rw u.db refl))
  serve-Change (create_book input) w =
      Ends-state (Books.create_book input w) (create_book-Ends input w) (λ _ _ p. stay p.rest.users)
        (λ _ u. stay (rw u.db refl))
  serve-Change (update_book book_id input) w =
      Ends-state (Books.update_book book_id input w) (update_book-Ends book_id input w)
        (λ _ _ p. stay p.rest.users) (λ _ u. stay (rw u.db refl))
  serve-Change (delete_book book_id) w =
      Ends-state (Books.delete_book book_id w) (delete_book-Ends book_id w)
        (λ _ _ p. stay p.rest.users) (λ _ u. stay (rw u.db refl))
  serve-Change (create_author input) w =
      Ends-state (Authors.create_author input w) (create_author-Ends input w)
        (λ _ _ p. stay p.rest.users) (λ _ u. stay (rw u.db refl))
  serve-Change (update_author author_id input) w =
      Ends-state (Authors.update_author author_id input w) (update_author-Ends author_id input w)
        (λ _ _ p. stay p.rest.users) (λ _ u. stay (rw u.db refl))
  serve-Change (delete_author author_id) w =
      Ends-state (Authors.delete_author author_id w) (delete_author-Ends author_id w)
        (λ _ _ p. stay p.rest.users) (λ _ u. stay (rw u.db refl))
  serve-Change (create_loan input) w =
      Ends-state (Loans.create_loan service_bus input w) (create_loan-Ends input w)
        (λ _ _ p. stay p.users) (λ _ u. stay (rw u.db refl))
  serve-Change (return_loan loan_id) w =
      Ends-state (Loans.return_loan service_bus loan_id w) (return_loan-Ends loan_id w)
        (λ _ _ p. stay p.users) (λ _ u. stay (rw u.db refl))
  serve-Change (pay_fine loan_id) w =
      Ends-state (Loans.pay_fine loan_id w) (pay_fine-Ends loan_id w) (λ _ _ p. stay p.users)
        (λ _ u. stay (rw u.db refl))
  serve-Change (update_loan loan_id input) w =
      Ends-state (Loans.update_loan loan_id input w) (update_loan-Ends loan_id input w)
        (λ _ _ p. stay p.users) (λ _ u. stay (rw u.db refl))
  serve-Change (cancel_loan loan_id) w =
      Ends-state (Loans.cancel_loan service_bus loan_id w) (cancel_loan-Ends loan_id w)
        (λ _ _ p. stay p.users) (λ _ u. stay (rw u.db refl))
  serve-Change (renew_loan loan_id) w =
      Ends-state (Loans.renew_loan loan_id w) (renew_loan-Ends loan_id w) (λ _ _ p. stay p.users)
        (λ _ u. stay (rw u.db refl))
  serve-Change (create_reservation input user_id) w =
      Ends-state (Reservations.create_reservation service_bus input user_id w)
        (create_reservation-Ends input user_id w) (λ _ _ p. stay p.rest.users)
        (λ _ u. stay (rw u.db refl))
  serve-Change (cancel_reservation reservation_id) w =
      Ends-state (Reservations.cancel_reservation service_bus reservation_id w)
        (cancel_reservation-Ends reservation_id w) (λ _ _ p. stay p.rest.users)
        (λ _ u. stay (rw u.db refl))
  serve-Change run_due_loans_job w = stay (execute-Delivered w).users

-- The row of an account, later: the same address, password and date, and no change at all once the
-- account is deleted.
pub record IsKept (u v : User) : Type 0 where
  pub same : credentials v ≡ credentials u
  pub deleted : u.is_active ≡ false → v ≡ u

pub record Keeps (u : User) (us : List User) : Type 0 where
  pub row : User
  pub found : find_by_key u.id us ≡ some row
  pub kept : IsKept u row

not_both : {b : Bool} → b ≡ true → b ≡ false → ⊥
not_both h k = cc

some-injective : (u v : User) → some u ≡ some v → u ≡ v
some-injective u v h = ground arith

Change-Keeps : {us vs : List User} (u : User) → Change us vs → Keeps u us → Keeps u vs
Change-Keeps u (stay same) h = rw same h
Change-Keeps {us} u (join v vs) h = record {
  row = h.row;
  found = rw (vs, find_by_key-insert, h.found) refl;
  kept = h.kept;
}
Change-Keeps {us} u (rewrite old new had active same vs) h =
    let saved = find_by_key-save u.id new old us had in
    elim (Bool-cases (new.id == u.id)) [
      | inr other ↦ record { row = h.row; found = rw (vs, saved, other) h.found; kept = h.kept }
      | inl mine ↦
          let here : old ≡ h.row =
            let key : new.id ≡ u.id = (eq_iff new.id u.id).0 mine in
            some-injective old h.row (sym had ∙ ap (λ k. find_by_key k us) key ∙ h.found) in
          record {
            row = new;
            found = rw (vs, saved, mine) refl;
            kept = record {
              same = same ∙ ap credentials here ∙ h.kept.same;
              deleted = λ gone. absurd (
                  not_both active
                    (ap (λ (v : User). v.is_active) (here ∙ h.kept.deleted gone) ∙ gone));
            };
          }
    ]

module _ ⦃ext : External⦄ where
  pub serve-Keeps :
      (u : User) (r : Request) (w : State) → Keeps u w.users → Keeps u (serve r w).users
  serve-Keeps u r w h = Change-Keeps u (serve-Change r w) h
