-- ===== src/Inventory/Limits.antt =====
-- The number of active loans of a user, the renewals of a loan, and what a loan keeps for ever.
use library_api.Prelude.{
  ◌≤◌, String, ◌≡◌, refl, ◌⊎◌, inr, true, Option, none, some, arith, count, eq_iff, List,
}
use library_api.Models.Book.{book_row}
use library_api.Models.Loan.{Loan, loan_row}
use library_api.Table.{
  find_by_key, save, find_by_key-save, find_by_key-insert, count-save, count-insert,
}
use library_api.Loans.Repository.{is_active, is_active_of_user}
use library_api.Inventory.{Shelf, Step, idle, lend, settle, adjust, acquire, edit, hide, Same}

pub record IsLimited (s : Shelf) : Type 0 where
  pub at : (user_id : String) → count (is_active_of_user user_id) s.loans ≤ 3

pub Step-IsLimited : {s t : Shelf} → Step s t → IsLimited s → IsLimited t
Step-IsLimited {s} {t} (idle same_books same_loans) h = record { at = λ u. rw same_loans (h.at u) }
Step-IsLimited {s} {t} (lend book loan found there room of_book live fresh bs ls) h = record {
  at = λ u. rw (ls, count-insert) (ground (arith, eq_iff loan.user_id u, h.at u));
}
Step-IsLimited {s} {t} (settle book old new found had same of_book closed kept bs ls) h = record {
  at = λ u. rw ls (ground (arith, h.at u, count-save (is_active_of_user u) new old s.loans had));
}
Step-IsLimited {s} {t} (adjust old new had same live kept bs ls) h = record {
  at = λ u. rw ls (ground (arith, h.at u, count-save (is_active_of_user u) new old s.loans had));
}
Step-IsLimited {s} {t} (acquire book unused full nonneg bs same_loans) h = record {
  at = λ u. rw same_loans (h.at u);
}
Step-IsLimited {s} {t} (hide author_id bs same_loans) h = record {
  at = λ u. rw same_loans (h.at u);
}
Step-IsLimited {s} {t} (edit old new had shift nonneg bs same_loans) h = record {
  at = λ u. rw same_loans (h.at u);
}

-- A loan found under a key, if any, has been renewed at most twice.
abbrev Few : Option Loan → Type 0
Few none = Unit
Few (some l) = l.renewal_count ≤ 2

pub record IsRenewedFew (s : Shelf) : Type 0 where
  pub at : (loan_id : String) → Few (find_by_key loan_id s.loans)

pub Step-IsRenewedFew : {s t : Shelf} → Step s t → IsRenewedFew s → IsRenewedFew t
Step-IsRenewedFew {s} {t} (idle same_books same_loans) h = record {
  at = λ k. rw same_loans (h.at k);
}
Step-IsRenewedFew {s} {t} (lend book loan found there room of_book live fresh bs ls) h = record {
  at = λ k. rw (ls, find_by_key-insert) (ground (arith, h.at k));
}
Step-IsRenewedFew {s} {t} (settle book old new found had same of_book closed kept bs ls) h =
    record {
      at = λ k.
          rw (ls, find_by_key-save k new old s.loans had) (ground (arith, h.at k, h.at new.id));
    }
Step-IsRenewedFew {s} {t} (adjust old new had same live kept bs ls) h = record {
  at = λ k. rw (ls, find_by_key-save k new old s.loans had) (ground (arith, h.at k, h.at new.id));
}
Step-IsRenewedFew {s} {t} (acquire book unused full nonneg bs same_loans) h = record {
  at = λ k. rw same_loans (h.at k);
}
Step-IsRenewedFew {s} {t} (hide author_id bs same_loans) h = record {
  at = λ k. rw same_loans (h.at k);
}
Step-IsRenewedFew {s} {t} (edit old new had shift nonneg bs same_loans) h = record {
  at = λ k. rw same_loans (h.at k);
}

-- What has become of a loan: it is there, with its user, its book and its date, and if it was
-- closed it is as it was.
abbrev pub Kept : Loan → Option Loan → Type 0
Kept l none = ⊥
Kept l (some m) =
    (m.user_id ≡ l.user_id)
    × (m.book_id ≡ l.book_id)
    × (m.loan_date ≡ l.loan_date)
    × ((is_active l ≡ true) ⊎ (m ≡ l))

pub Kept-refl : (l : Loan) (o : Option Loan) → o ≡ some l → Kept l o
Kept-refl l o h = rw h (refl, refl, refl, inr refl)

pub Kept-trans : (l m : Loan) (o : Option Loan) → Kept l (some m) → Kept m o → Kept l o
Kept-trans l m none p q = q
Kept-trans l m (some n) p q = ground (arith, p, q)

Kept-save :
    (k : String) (l old new : Loan) (loans : List Loan)
    → find_by_key k loans ≡ some l
    → find_by_key new.id loans ≡ some old
    → Same old new
    → Kept l (find_by_key k (save new loans))
Kept-save k l old new loans h had same =
    rw (find_by_key-save k new old loans had) (ground (arith, eq_iff new.id k))

pub Step-Kept :
    {s t : Shelf} (k : String) (l : Loan)
    → Step s t
    → find_by_key k s.loans ≡ some l
    → Kept l (find_by_key k t.loans)
Step-Kept {s} {t} k l (idle same_books ls) h = rw (ls, h) (Kept-refl l _ refl)
Step-Kept {s} {t} k l (lend book loan found there room of_book live fresh bs ls) h =
    rw (ls, find_by_key-insert, h) (Kept-refl l _ refl)
Step-Kept {s} {t} k l (settle book old new found had same of_book closed kept bs ls) h =
    rw ls (Kept-save k l old new s.loans h had same)
Step-Kept {s} {t} k l (adjust old new had same live kept bs ls) h =
    rw ls (Kept-save k l old new s.loans h had same)
Step-Kept {s} {t} k l (acquire book unused full nonneg bs ls) h = rw (ls, h) (Kept-refl l _ refl)
Step-Kept {s} {t} k l (hide author_id bs ls) h = rw (ls, h) (Kept-refl l _ refl)
Step-Kept {s} {t} k l (edit old new had shift nonneg bs ls) h = rw (ls, h) (Kept-refl l _ refl)
