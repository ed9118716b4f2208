-- ===== src/Loans/Service.antt =====
-- app/domain/loans/services/loan_service.py: the methods that change a loan.
mod Shared
pub use Shared.*
use Prim.Native.String.{◌++◌}
use library_api.Prelude.{
  ℕ, ◌+◌, ◌-◌, String, true, false, ◌&&◌, Option, none, some, leb, ltb, if◌then◌else◌,
}
use library_api.Prelude.Int.{pos, ◌+ℤ◌, ◌-ℤ◌, leb_ℤ}
use library_api.Datetime.{Datetime, GivenDatetime, naive, aware, days}
use library_api.Errors.{business_rule, not_found, fine_payment_required, type_error}
use library_api.Models.Loan.{Loan, LoanStatus, status_eq}
use library_api.Responses.{
  LoanResponse, ReturnLoanResponse, CancelLoanResponse, PayLoanFineResponse, RenewLoanResponse,
}
use library_api.Events.{DomainEvent, LoanEvent}
use library_api.EventBus.{EventBus, publish}
use library_api.Exec.{Exec, pure, raise, raise_if, run, gets, modify, or_raise, ◌>>=◌, ◌>>◌}
use library_api.External.{External}
use library_api.World.{State, Metrics, utcnow, new_id}
use library_api.Cache
use library_api.Cache.Keys.{book_detail_key, loan_item_key, loans_user_prefix}
use library_api.Loans.Fine.{days_late_at, amount_at, calculate_days_late}
use library_api.Loans.Repository
use library_api.Loans.Queries.{find_user, serialize_loan}
use library_api.Reservations.Repository.{exists_active_for_book}

module _ ⦃ext : External⦄ where
  -- `create_loan` once the active loans of the user have been counted.
  unfoldable pub lend : EventBus → CreateLoan → ℕ → Exec State LoanResponse
  unfolding publish serialize_loan
  lend event_bus input active_loans = do
    raise_if (leb max_active_loans active_loans)
        (business_rule "Usuário atingiu o número máximo de empréstimos ativos")
    found ← gets (Repository.get_book_for_update input.book_id)
    book ← or_raise found (not_found "Livro não encontrado")
    raise_if (leb_ℤ book.available_copies (pos 0)) (business_rule "Livro indisponível")
    now ← run utcnow
    loan_id ← run new_id
    created_at ← run utcnow
    let loan : Loan = record {
      id = loan_id;
      user_id = input.user_id;
      book_id = input.book_id;
      loan_date = now;
      due_date = now + days loan_days;
      returned_at = none;
      cancelled_at = none;
      status = LoanStatus.active;
      fine_amount = 0;
      fine_paid_at = none;
      fine_paid_amount = 0;
      renewal_count = 0;
      created_at = created_at;
    }
    modify
        (Repository.save_book (record book { available_copies = book.available_copies -ℤ pos 1 }))
    modify (Repository.create loan)
    modify (invalidate_book_cache input.book_id)
    modify (invalidate_loan_cache input.user_id loan.id)
    occurred_at ← run utcnow
    publish event_bus (DomainEvent.loan_created (loan_event occurred_at loan))
    modify (count_metric λ m. record m { loans_created_total = m.loans_created_total + 1 })
    run (serialize_loan loan)

  unfoldable pub create_loan : EventBus → CreateLoan → Exec State LoanResponse
  unfolding lend
  create_loan event_bus input = do
    user ← gets (find_user input.user_id)
    or_raise user (not_found "Usuário não encontrado")
    active_loans ← gets (Repository.count_active_by_user input.user_id)
    lend event_bus input active_loans

  unfoldable pub return_loan : EventBus → String → Exec State ReturnLoanResponse
  unfolding publish days_late_at amount_at
  return_loan event_bus loan_id = do
    active ← gets (Repository.find_active_by_id_for_update loan_id)
    loan ← or_raise active (not_found "Empréstimo ativo não encontrado")
    now ← run utcnow
    let days_late = days_late_at loan.due_date now
    let fine_amount = amount_at loan.due_date now
    raise_if (ltb 0 fine_amount && ltb loan.fine_paid_amount fine_amount) fine_payment_required
    found ← gets (Repository.get_book_for_update loan.book_id)
    book ← or_raise found (not_found "Livro não encontrado")
    let returned : Loan = record loan {
      status = LoanStatus.returned;
      returned_at = some now;
      fine_amount = fine_amount;
    }
    modify (Repository.save_loan returned)
    modify
        (Repository.save_book (record book { available_copies = book.available_copies +ℤ pos 1 }))
    modify (invalidate_book_cache loan.book_id)
    modify (invalidate_loan_cache loan.user_id loan.id)
    occurred_at ← run utcnow
    publish event_bus (DomainEvent.loan_returned (loan_event occurred_at returned))
    modify (count_metric λ m. record m { loans_returned_total = m.loans_returned_total + 1 })
    pure (record {
      id = returned.id;
      status = returned.status;
      returned_at = returned.returned_at;
      fine_amount = returned.fine_amount;
      fine_paid_at = returned.fine_paid_at;
      fine_paid_amount = returned.fine_paid_amount;
      days_late = days_late;
    })

  -- The payment is the difference of the two amounts; past the second test it is positive.
  unfoldable pub pay_fine : String → Exec State PayLoanFineResponse
  unfolding amount_at
  pay_fine loan_id = do
    active ← gets (Repository.find_active_by_id_for_update loan_id)
    loan ← or_raise active (not_found "Empréstimo ativo não encontrado")
    now ← run utcnow
    let fine_amount = amount_at loan.due_date now
    raise_if (leb fine_amount 0) (business_rule "O empréstimo não possui multa a pagar")
    raise_if (leb fine_amount loan.fine_paid_amount)
        (business_rule "A multa do empréstimo já está paga")
    let payment_amount = fine_amount - loan.fine_paid_amount
    let paid : Loan = record loan {
      fine_amount = fine_amount;
      fine_paid_amount = fine_amount;
      fine_paid_at = some now;
    }
    modify (Repository.save_loan paid)
    modify (invalidate_loan_cache loan.user_id loan.id)
    pure (record {
      id = paid.id;
      fine_amount = paid.fine_amount;
      payment_amount = payment_amount;
      fine_paid_amount = paid.fine_paid_amount;
      fine_paid_at = paid.fine_paid_at;
    })

  -- The optional new due date; an aware datetime cannot be compared with `loan_date`.
  abbrev with_due_date : Loan → Option GivenDatetime → Exec State Loan
  with_due_date loan none = pure loan
  with_due_date loan (some (aware d)) = raise type_error
  with_due_date loan (some (naive d)) = do
    raise_if (leb d loan.loan_date)
        (business_rule "A data de vencimento deve ser maior que a data do empréstimo")
    pure (record loan { due_date = d })

  unfoldable pub update_loan : String → UpdateLoan → Exec State LoanResponse
  unfolding serialize_loan
  update_loan loan_id input = do
    found ← gets (Repository.find_by_id loan_id)
    loan ← or_raise found (not_found "Empréstimo não encontrado")
    raise_if (if status_eq loan.status LoanStatus.active then false else true)
        (business_rule "Apenas empréstimos ativos podem ser atualizados")
    updated ← with_due_date loan input.due_date
    modify (Repository.save_loan updated)
    modify (invalidate_loan_cache updated.user_id updated.id)
    run (serialize_loan updated)

  unfoldable pub cancel_loan : EventBus → String → Exec State CancelLoanResponse
  unfolding publish
  cancel_loan event_bus loan_id = do
    active ← gets (Repository.find_active_by_id_for_update loan_id)
    loan ← or_raise active (not_found "Empréstimo ativo não encontrado")
    found ← gets (Repository.get_book_for_update loan.book_id)
    book ← or_raise found (not_found "Livro não encontrado")
    now ← run utcnow
    let cancelled : Loan = record loan {
      status = LoanStatus.cancelled;
      cancelled_at = some now;
      fine_amount = 0;
    }
    modify (Repository.save_loan cancelled)
    modify
        (Repository.save_book (record book { available_copies = book.available_copies +ℤ pos 1 }))
    modify (invalidate_book_cache loan.book_id)
    modify (invalidate_loan_cache loan.user_id loan.id)
    occurred_at ← run utcnow
    publish event_bus (DomainEvent.loan_cancelled (loan_event occurred_at cancelled))
    modify (count_metric λ m. record m { loans_cancelled_total = m.loans_cancelled_total + 1 })
    pure (record {
      id = cancelled.id;
      status = cancelled.status;
      cancelled_at = cancelled.cancelled_at;
    })

  unfoldable pub renew_loan : String → Exec State RenewLoanResponse
  unfolding calculate_days_late days_late_at
  renew_loan loan_id = do
    active ← gets (Repository.find_active_by_id_for_update loan_id)
    loan ← or_raise active (not_found "Empréstimo ativo não encontrado")
    days_late ← run (calculate_days_late loan.due_date none)
    raise_if (ltb 0 days_late) (business_rule "Empréstimos em atraso não podem ser renovados")
    raise_if (leb max_renewals loan.renewal_count)
        (business_rule "O empréstimo atingiu o número máximo de renovações")
    has_active_reservation ← exists_active_for_book loan.book_id
    raise_if has_active_reservation
        (business_rule "O empréstimo não pode ser renovado porque o livro possui reservas ativas")
    let renewed : Loan = record loan {
      due_date = loan.due_date + days renewal_days;
      renewal_count = loan.renewal_count + 1;
    }
    modify (Repository.save_loan renewed)
    modify (count_metric λ m. record m { loans_renewed_total = m.loans_renewed_total + 1 })
    pure (record {
      id = renewed.id;
      status = renewed.status;
      due_date = renewed.due_date;
      renewal_count = renewed.renewal_count;
    })
