-- ===== src/Books/Update.antt =====
-- `BookService.update_book`, on every branch.
use library_api.Prelude.{
  String, ◌≡◌, ◌≢◌, refl, ◌⊎◌, inl, inr, true, false, Option, none, some, arith, Bool-cases,
  Option-cases, eq_iff,
}
use library_api.Prelude.Int.{ℤ, ◌+ℤ◌, ◌-ℤ◌, ◌≤ℤ◌, ltb_ℤ, int_laws}
use library_api.Errors.{domain, not_found, business_rule}
use library_api.Models.Book.{Book, book_row}
use library_api.Table.{save}
use library_api.Exec.{Result, ok, err}
use library_api.External.{External}
use library_api.World.{State}
use library_api.Cache
use library_api.Cache.Keys.{book_detail_key}
use library_api.Books.Repository
use library_api.Books.Repository.{Listed}
use library_api.Books.Service.{UpdateBook, update_book, edited, below_borrowed, text_or}
use library_api.Books.Effects.{Untouched}

-- A text replaces the old one if it is given and not empty.
pub record IsRetitled (given : Option String) (old new : String) : Type 0 where
  pub replaced : (t : String) → given ≡ some t → t ≢ "" → new ≡ t
  pub left : (given ≡ none) ⊎ (given ≡ some "") → new ≡ old

-- The book that an update makes of the old one.
pub record IsRevised (input : UpdateBook) (old new : Book) : Type 0 where
  pub title : IsRetitled input.title old.title new.title
  pub category : IsRetitled input.category old.category new.category
  pub counted : (n : ℤ) → input.total_copies ≡ some n → new.total_copies ≡ n
  pub uncounted : input.total_copies ≡ none → new.total_copies ≡ old.total_copies
  -- As many copies are out as before.
  pub out : new.total_copies +ℤ old.available_copies ≡ old.total_copies +ℤ new.available_copies
  pub rest : new ≡ record old {
    title = new.title;
    category = new.category;
    total_copies = new.total_copies;
    available_copies = new.available_copies;
  }

text_or-IsRetitled :
    (given : Option String) (old : String) → IsRetitled given old (text_or given old)
text_or-IsRetitled none old = record { replaced = λ t h. ground arith; left = λ h. refl }
text_or-IsRetitled (some new) old = record {
  replaced = λ t h named. ground (arith, h, named, eq_iff new "");
  left = λ h. ground (arith, h, eq_iff new "");
}

module _ (input : UpdateBook) (old : Book) where
  edited_counted : (n : ℤ) → input.total_copies ≡ some n → (edited input old).total_copies ≡ n
  edited_counted n h = rw h refl

  edited_uncounted : input.total_copies ≡ none → (edited input old).total_copies ≡ old.total_copies
  edited_uncounted h = rw h refl

  edited_out :
      (edited input old).total_copies +ℤ old.available_copies
      ≡ old.total_copies +ℤ (edited input old).available_copies
  unfolding ◌+ℤ◌ ◌-ℤ◌
  edited_out = ground arith

  edited_title : IsRetitled input.title old.title (edited input old).title
  edited_title = elim (Option-cases input.total_copies) [
    | inl uncounted ↦ rw uncounted (text_or-IsRetitled input.title old.title)
    | inr (n, counted) ↦ rw counted (text_or-IsRetitled input.title old.title)
  ]

  edited_category : IsRetitled input.category old.category (edited input old).category
  edited_category = elim (Option-cases input.total_copies) [
    | inl uncounted ↦ rw uncounted (text_or-IsRetitled input.category old.category)
    | inr (n, counted) ↦ rw counted (text_or-IsRetitled input.category old.category)
  ]

  edited_rest : edited input old ≡ record old {
    title = (edited input old).title;
    category = (edited input old).category;
    total_copies = (edited input old).total_copies;
    available_copies = (edited input old).available_copies;
  }
  edited_rest = elim (Option-cases input.total_copies) [
    | inl uncounted ↦ rw uncounted refl
    | inr (n, counted) ↦ rw counted refl
  ]

  edited-IsRevised : IsRevised input old (edited input old)
  edited-IsRevised = record {
    title = edited_title;
    category = edited_category;
    counted = edited_counted;
    uncounted = edited_uncounted;
    out = edited_out;
    rest = edited_rest;
  }

  -- The guard, in either direction.
  below_borrowed-true :
      below_borrowed input.total_copies old ≡ true
      → (n : ℤ) × (input.total_copies ≡ some n) × ¬ (old.total_copies ≤ℤ n +ℤ old.available_copies)
  below_borrowed-true h = elim (Option-cases input.total_copies) [
    | inl uncounted ↦ ground (arith, uncounted)
    | inr (n, counted) ↦
        let fewer : ltb_ℤ n (old.total_copies -ℤ old.available_copies) ≡ true = rw counted at h in
        (n, counted, λ enough. grind int_laws)
  ]

  below_borrowed-false :
      below_borrowed input.total_copies old ≡ false
      → (n : ℤ) → input.total_copies ≡ some n
      → old.total_copies ≤ℤ n +ℤ old.available_copies
  below_borrowed-false h n counted =
      let enough : ltb_ℤ n (old.total_copies -ℤ old.available_copies) ≡ false = rw counted at h in
      grind int_laws

module _ ⦃ext : External⦄ where
  -- How `update_book` ends, by the book and the new total.
  pub data Outcome (book_id : String) (input : UpdateBook) (w : State)
      : Result Book × State → Type 0 where
    missing :
        Repository.find_by_id book_id w ≡ none
        → Outcome book_id input w (err (domain (not_found "Livro não encontrado")), w)
    too_few :
        (listed : Listed) (n : ℤ)
        → Repository.find_by_id book_id w ≡ some listed
        → input.total_copies ≡ some n
        → ¬ (listed.book.total_copies ≤ℤ n +ℤ listed.book.available_copies)
        → Outcome book_id input w (
          err (domain (business_rule "total_copies não pode ser menor que livros emprestados")),
          w,
        )
    updated :
        (listed : Listed) (new : Book) (w' : State)
        → Repository.find_by_id book_id w ≡ some listed
        → ((n : ℤ)
            → input.total_copies ≡ some n
            → listed.book.total_copies ≤ℤ n +ℤ listed.book.available_copies)
        → IsRevised input listed.book new
        → w'.books ≡ save new w.books
        → w'.cache
          ≡ (Cache.delete_pattern "books:list*" (Cache.delete (book_detail_key book_id) w)).cache
        → Untouched w w'
        → Outcome book_id input w (ok new, w')

  -- `update_book` raises "not found" where there is no active book, and a business rule exactly where
  -- a new total is given that is less than the copies that are out, with the state as it was either
  -- way. Otherwise it stores and returns the book with the texts that are given and not empty, with
  -- the new total, and with as many copies out as before; the other fields and tables stay, and the
  -- cached book and lists of books are dropped.
  pub update_book-Outcome :
      (book_id : String) (input : UpdateBook) (w : State)
      → Outcome book_id input w (update_book book_id input w)
  unfolding update_book
  update_book-Outcome book_id input w = elim (Option-cases (Repository.find_by_id book_id w)) [
    | inl no_book ↦ rw no_book (missing no_book)
    | inr (listed, found) ↦ elim (Bool-cases (below_borrowed input.total_copies listed.book)) [
      | inl few ↦
          let (n, counted, less) = below_borrowed-true input listed.book few in
          rw (found, few) (too_few listed n found counted less)
      | inr enough ↦
          rw (found, enough)
            (updated listed (edited input listed.book) _ found
              (below_borrowed-false input listed.book enough) (edited-IsRevised input listed.book)
              refl refl (ground arith))
    ]
  ]
