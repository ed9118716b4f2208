-- ===== src/Loans/Race.antt =====
-- Two `create_loan` requests of one user at the same time: the count of the active loans takes no
-- lock, so both can count before either writes.
use library_api.Prelude.{
  ℕ, ◌+◌, ◌<◌, ◌≡◌, ◌≢◌, refl, ap, String, arith, some, false, leb, eq_iff, eq_refl, Option-cases,
  inl, inr, sym, ◌∙◌,
}
use library_api.Prelude.Int.{ℤ, pos, ◌-ℤ◌, ◌≤ℤ◌, leb_ℤ}
use library_api.Errors.{DomainException, domain, business_rule, not_found}
use library_api.Models.User.{User, user_row}
use library_api.Models.Book.{Book, book_row}
use library_api.Models.Loan.{loan_row}
use library_api.Responses.{LoanResponse}
use library_api.Table.{insert, save, count-insert, find_by_key, find_by_key-save, find_where_self}
use library_api.EventBus.{service_bus}
use library_api.Exec.{Exec, Result, ok, err, gets, or_raise, pure, ◌>>=◌, ◌>>◌}
use library_api.External.{External}
use library_api.World.{State}
use library_api.Effects.{bind-err, bind-ok, Ends}
use library_api.Loans.Repository
use library_api.Loans.Queries.{find_user}
use library_api.Loans.Service.{CreateLoan, create_loan, lend, max_active_loans}
use library_api.Loans.Effects.Create.{new_loan}

module _ ⦃ext : External⦄ where
  -- `create_loan` up to the count.
  unfoldable pub counted : CreateLoan → Exec State ℕ
  counted input = do
    user ← gets (find_user input.user_id)
    or_raise user (not_found "Usuário não encontrado")
    gets (Repository.count_active_by_user input.user_id)

  create_loan-counted :
      (input : CreateLoan) (w : State)
      → create_loan service_bus input w ≡ (counted input >>= lend service_bus input) w
  unfolding create_loan counted
  create_loan-counted input w = elim (Option-cases (find_user input.user_id w)) [
    | inl unknown ↦
        let unknown_user : DomainException = not_found "Usuário não encontrado" in
        let stops : counted input w ≡ (err (domain unknown_user), w) = rw unknown refl in
        let whole : create_loan service_bus input w ≡ (err (domain unknown_user), w) =
          rw unknown refl in
        whole ∙ sym (bind-err (counted input) (lend service_bus input) stops)
    | inr (user, known) ↦
        let seen = Repository.count_active_by_user input.user_id w in
        let goes_on : counted input w ≡ (ok seen, w) = rw known refl in
        let whole : create_loan service_bus input w ≡ lend service_bus input seen w =
          rw known refl in
        whole ∙ sym (bind-ok (counted input) (lend service_bus input) goes_on)
  ]

  -- Both requests count, then both lend.
  unfoldable pub interleaved : CreateLoan → CreateLoan → Exec State (LoanResponse × LoanResponse)
  interleaved first second = do
    seen_by_first ← counted first
    seen_by_second ← counted second
    r ← lend service_bus first seen_by_first
    s ← lend service_bus second seen_by_second
    pure (r, s)

  -- What `lend` does where it lends.
  record Handed (input : CreateLoan) (book : Book) (w w' : State) : Type 0 where
    loans : w'.loans ≡ insert (new_loan input w) w.loans
    books :
        w'.books ≡ save (record book { available_copies = book.available_copies -ℤ pos 1 }) w.books
    users : w'.users ≡ w.users

  lend-Ends :
      (input : CreateLoan) (book : Book) (seen : ℕ) (w : State)
      → seen < max_active_loans
      → Repository.get_book_for_update input.book_id w ≡ some book
      → pos 1 ≤ℤ book.available_copies
      → Ends (λ r w'. Handed input book w w') (λ w'. ⊥) (lend service_bus input seen w)
  unfolding lend service_bus
  lend-Ends input book seen w below found there =
      let room : leb max_active_loans seen ≡ false = ground arith in
      let some_left : leb_ℤ book.available_copies (pos 0) ≡ false = ground arith in
      rw (room, found, some_left) (record { loans = refl; books = refl; users = refl })

  one_more :
      (input : CreateLoan) (user_id : String) (w w' : State)
      → input.user_id ≡ user_id
      → w'.loans ≡ insert (new_loan input w) w.loans
      → Repository.count_active_by_user user_id w' ≡ Repository.count_active_by_user user_id w + 1
  one_more input user_id w w' same loans =
      rw (loans, count-insert) (ground (arith, same, eq_refl user_id))

  other_book :
      (book_id : String) (n : ℤ) (w w' : State) (book other : Book)
      → w'.books ≡ save (record book { available_copies = n }) w.books
      → find_by_key book.id w.books ≡ some book
      → book.id ≢ book_id
      → Repository.get_book_for_update book_id w ≡ some other
      → Repository.get_book_for_update book_id w' ≡ some other
  other_book book_id n w w' book other saved there different found =
      let step =
        find_by_key-save book_id (record book { available_copies = n }) book w.books there in
      rw (saved, step) (ground (arith, found, different, eq_iff book.id book_id))

  -- A run that cannot raise.
  returned :
      {A : Type 0} (P : A → State → Type 0) (x : Result A × State)
      → Ends P (λ w. ⊥) x
      → (a : A) × (x ≡ (ok a, x.1)) × P a x.1
  returned P (ok a, s) h = (a, refl, h)
  returned P (err e, s) h = absurd h

  lend-Handed :
      (input : CreateLoan) (book : Book) (w : State)
      → Repository.get_book_for_update input.book_id w ≡ some book
      → pos 1 ≤ℤ book.available_copies
      → let x = lend service_bus input 2 w in
        (r : LoanResponse) × (x ≡ (ok r, x.1)) × Handed input book w x.1
  lend-Handed input book w found there =
      returned (λ r w'. Handed input book w w') (lend service_bus input 2 w)
        (lend-Ends input book 2 w (omega arith) found there)

  stays_known :
      (user_id : String) (w w' : State) {user : User}
      → w'.users ≡ w.users
      → find_user user_id w ≡ some user
      → find_user user_id w' ≡ some user
  stays_known user_id w w' same known = rw same known

  counted-ok :
      (input : CreateLoan) (w : State) (user : User) (seen : ℕ)
      → find_user input.user_id w ≡ some user
      → Repository.count_active_by_user input.user_id w ≡ seen
      → counted input w ≡ (ok seen, w)
  unfolding counted
  counted-ok input w user seen known counts = rw (known, counts) refl

  interleaved-ok :
      (first second : CreateLoan) (m n : ℕ) (w w₁ w₂ : State) (r s : LoanResponse)
      → counted first w ≡ (ok m, w)
      → counted second w ≡ (ok n, w)
      → lend service_bus first m w ≡ (ok r, w₁)
      → lend service_bus second n w₁ ≡ (ok s, w₂)
      → interleaved first second w ≡ (ok (r, s), w₂)
  unfolding interleaved
  interleaved-ok first second m n w w₁ w₂ r s a b c d =
      bind-ok (counted first)
        (λ i. counted second >>= λ j.
          lend service_bus first i >>= λ x. lend service_bus second j >>= λ y. pure (x, y))
        a
      ∙ bind-ok (counted second)
          (λ j. lend service_bus first m >>= λ x. lend service_bus second j >>= λ y. pure (x, y)) b
      ∙ bind-ok (lend service_bus first m) (λ x. lend service_bus second n >>= λ y. pure (x, y)) c
      ∙ bind-ok (lend service_bus second n) (λ y. pure (r, y)) d

  full_refused :
      (input : CreateLoan) (w : State) (user : User)
      → find_user input.user_id w ≡ some user
      → Repository.count_active_by_user input.user_id w ≡ 3
      → (create_loan service_bus input w).0
        ≡ err (domain (business_rule "Usuário atingiu o número máximo de empréstimos ativos"))
  unfolding create_loan
  full_refused input w user known three = rw (known, three) refl

  -- Two requests to lend different books to a user with two active loans.
  module _ (first second : CreateLoan) (w : State) (user : User) (book other : Book)
      (same : second.user_id ≡ first.user_id) (different : second.book_id ≢ first.book_id)
      (known : find_user first.user_id w ≡ some user)
      (two : Repository.count_active_by_user first.user_id w ≡ 2)
      (found : Repository.get_book_for_update first.book_id w ≡ some book)
      (there : pos 1 ≤ℤ book.available_copies)
      (found' : Repository.get_book_for_update second.book_id w ≡ some other)
      (there' : pos 1 ≤ℤ other.available_copies) where
    both_lend :
        (r : LoanResponse × LoanResponse) × ((interleaved first second w).0 ≡ ok r)
        × (Repository.count_active_by_user first.user_id (interleaved first second w).1 ≡ 4)
    both_lend =
        let (r, one, p) = lend-Handed first book w found there in
        let w₁ = (lend service_bus first 2 w).1 in
        let (at_id, _, key) = find_where_self first.book_id (λ b. b.is_active) w.books found in
        let still =
          other_book second.book_id (book.available_copies -ℤ pos 1) w w₁ book other p.books at_id
            (λ e. different (sym e ∙ key)) found' in
        let (s, next, q) = lend-Handed second other w₁ still there' in
        let w₂ = (lend service_bus second 2 w₁).1 in
        let run : interleaved first second w ≡ (ok (r, s), w₂) =
          interleaved-ok first second 2 2 w w₁ w₂ r s (counted-ok first w user 2 known two)
            (counted-ok second w user 2 (rw same known) (rw same two)) one next in
        let three = one_more first first.user_id w w₁ refl p.loans in
        let four = one_more second first.user_id w₁ w₂ same q.loans in
        (
          (r, s),
          ap (λ x. x.0) run,
          ap (λ x. Repository.count_active_by_user first.user_id x.1) run
              ∙ ground (arith, two, three, four),
        )

    second_refused :
        (create_loan service_bus second (create_loan service_bus first w).1).0
        ≡ err (domain (business_rule "Usuário atingiu o número máximo de empréstimos ativos"))
    second_refused =
        let (r, one, p) = lend-Handed first book w found there in
        let w₁ = (lend service_bus first 2 w).1 in
        let run : create_loan service_bus first w ≡ lend service_bus first 2 w =
          create_loan-counted first w
          ∙ bind-ok (counted first) (lend service_bus first)
              (counted-ok first w user 2 known two) in
        let there_again : find_user second.user_id w₁ ≡ some user =
          stays_known second.user_id w w₁ p.users (rw same known) in
        let three = one_more first second.user_id w w₁ (sym same) p.loans in
        ap (λ x. (create_loan service_bus second x.1).0) run
        ∙ full_refused second w₁ user there_again (ground (arith, three, two, same))

    -- Two `create_loan` requests of one user with two active loans, for two books with a copy each:
    -- if both count the active loans before either writes, both return, and the user has four active
    -- loans, past the limit of three. If the second comes after the first, it is refused.
    pub interleaved-create_loan :
        (r : LoanResponse × LoanResponse) × ((interleaved first second w).0 ≡ ok r)
        × (Repository.count_active_by_user first.user_id (interleaved first second w).1 ≡ 4)
        × ((create_loan service_bus second (create_loan service_bus first w).1).0
            ≡ err (domain (business_rule "Usuário atingiu o número máximo de empréstimos ativos")))
    interleaved-create_loan = let (r, done, four) = both_lend in (r, done, four, second_refused)
