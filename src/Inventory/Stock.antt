-- ===== src/Inventory/Stock.antt =====
-- The balance of a book's copies and its loans, along the steps of the abstract machine.
use library_api.Prelude.{
  Option-cases, inl, inr, ℕ, ◌+◌, String, ◌≡◌, ◌⊎◌, Option, none, some, arith, count, eq_iff,
}
use library_api.Prelude.Int.{pos, ◌+ℤ◌, ◌-ℤ◌, ◌≤ℤ◌}
use library_api.Models.Book.{Book, book_row}
use library_api.Models.Loan.{loan_row}
use library_api.Table.{
  find_by_key, save, find_by_key-save, find_by_key-insert, count-save, count-insert,
}
use library_api.Authors.Repository.{deactivated}
use library_api.Authors.Catalogue.{find_by_key-map-deactivated}
use library_api.Loans.Repository.{is_active_of_book}
use library_api.Inventory.{
  Shelf, Step, idle, lend, settle, adjust, acquire, edit, hide, taken, shelved,
}

-- A book and the number of its active loans: the copies on the shelf and those out make up the
-- total, and the shelf does not owe copies. What is no book has no active loan.
abbrev pub Balance : Option Book → ℕ → Type 0
Balance none n = n ≡ 0
Balance (some b) n = (b.available_copies +ℤ pos n ≡ b.total_copies) × (pos 0 ≤ℤ b.available_copies)

pub record IsBalanced (s : Shelf) : Type 0 where
  pub at : (id : String) → Balance (find_by_key id s.books) (count (is_active_of_book id) s.loans)

taken-Balance :
    (b : Book) (n : ℕ)
    → Balance (some b) n
    → pos 1 ≤ℤ b.available_copies
    → Balance (some (taken b)) (n + 1)
unfolding ◌+ℤ◌ ◌-ℤ◌
taken-Balance b n h there = ground arith

shelved-Balance :
    (b : Book) (n m : ℕ) → n ≡ m + 1 → Balance (some b) n → Balance (some (shelved b)) m
unfolding ◌+ℤ◌
shelved-Balance b n m e h = ground arith

full-Balance :
    (b : Book) (n : ℕ)
    → n ≡ 0
    → b.available_copies ≡ b.total_copies
    → pos 0 ≤ℤ b.total_copies
    → Balance (some b) n
unfolding ◌+ℤ◌
full-Balance b n e full nonneg = ground arith

edited-Balance :
    (old new : Book) (n : ℕ)
    → new.available_copies +ℤ old.total_copies ≡ new.total_copies +ℤ old.available_copies
    → ((new.available_copies ≡ old.available_copies) ⊎ (pos 0 ≤ℤ new.available_copies))
    → Balance (some old) n
    → Balance (some new) n
unfolding ◌+ℤ◌
edited-Balance old new n shift nonneg h = ground arith

hidden-Balance :
    (author_id : String) (b : Book) (n : ℕ)
    → Balance (some b) n
    → Balance (some (deactivated author_id b)) n
unfolding ◌+ℤ◌
hidden-Balance author_id b n h = ground arith

pub Step-IsBalanced : {s t : Shelf} → Step s t → IsBalanced s → IsBalanced t
Step-IsBalanced {s} {t} (idle same_books same_loans) h = record {
  at = λ id. rw (same_books, same_loans) (h.at id);
}
Step-IsBalanced {s} {t} (lend book loan found there room of_book active fresh bs ls) h = record {
  at = λ id.
      rw (bs, ls, find_by_key-save id (taken book) book s.books found, count-insert)
        (ground (
          arith,
          eq_iff book.id id,
          h.at id,
          taken-Balance book (count (is_active_of_book id) s.loans),
        ));
}
Step-IsBalanced {s} {t} (settle book old new found had same of_book closed kept bs ls) h = record {
  at = λ id.
      let n : ℕ = count (is_active_of_book id) t.loans in
      rw (bs, find_by_key-save id (shelved book) book s.books found)
        (ground (
          arith,
          ls,
          eq_iff book.id id,
          h.at id,
          count-save (is_active_of_book id) new old s.loans had,
          shelved-Balance book (count (is_active_of_book id) s.loans)
              (count (is_active_of_book id) (save new s.loans)),
        ));
}
Step-IsBalanced {s} {t} (adjust old new had same live kept bs ls) h = record {
  at = λ id.
      rw (bs, ls) (ground (arith, h.at id, count-save (is_active_of_book id) new old s.loans had));
}
Step-IsBalanced {s} {t} (acquire book unused full nonneg bs ls) h = record {
  at = λ id.
      rw (bs, ls, find_by_key-insert)
        (ground (
          arith,
          eq_iff book.id id,
          h.at id,
          full-Balance book (count (is_active_of_book id) s.loans),
        ));
}
Step-IsBalanced {s} {t} (edit old new had shift nonneg bs ls) h = record {
  at = λ id.
      rw (bs, ls, find_by_key-save id new old s.books had)
        (ground (
          arith,
          eq_iff new.id id,
          h.at id,
          edited-Balance old new (count (is_active_of_book id) s.loans),
        ));
}
Step-IsBalanced {s} {t} (hide author_id bs ls) h = record {
  at = λ id.
      rw (bs, ls, find_by_key-map-deactivated author_id id s.books)
        (elim (Option-cases (find_by_key id s.books)) [
          | inl unknown ↦ let b = h.at id in rw unknown (rw unknown at b)
          | inr (book, found) ↦
              let b = h.at id in rw found (hidden-Balance author_id book _ (rw found at b))
        ]);
}
