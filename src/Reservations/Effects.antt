-- ===== src/Reservations/Effects.antt =====
-- How the methods of the reservation service that write end.
use library_api.Prelude.{
  ◌≤◌, String, ◌≡◌, refl, false, none, some, List, [], ◌∷◌, arith, Bool-cases, Option-cases, inl,
  inr, select,
}
use library_api.Prelude.Int.{pos, ◌≤ℤ◌, ltb_ℤ}
use library_api.Models.User.{User}
use library_api.Models.Book.{book_row}
use library_api.Models.Reservation.{Reservation, ReservationStatus, reservation_row}
use library_api.Table.{insert, save}
use library_api.External.{External}
use library_api.EventBus.{service_bus}
use library_api.World.{State}
use library_api.Effects.{Ends, Unchanged}
use library_api.Books.Repository as Books
use library_api.Books.Repository.{Listed}
use library_api.Loans.Queries.{find_user}
use library_api.Reservations.Repository
use library_api.Reservations.Service.{CreateReservation, create_reservation, cancel_reservation}

module _ ⦃ext : External⦄ where
  -- What the reservation service leaves alone.
  pub record Untouched (w w' : State) : Type 0 where
    pub users : w'.users ≡ w.users
    pub authors : w'.authors ≡ w.authors
    pub books : w'.books ≡ w.books
    pub loans : w'.loans ≡ w.loans
    pub cache : w'.cache ≡ w.cache
    pub later : w.identifiers ≤ w'.identifiers

  abbrev pub new_reservation : String → String → State → Reservation
  new_reservation user_id book_id w = record {
    id = ext.uuid w.identifiers;
    user_id = user_id;
    book_id = book_id;
    status = ReservationStatus.active;
    created_at = ext.clock w.readings;
    cancelled_at = none;
    fulfilled_at = none;
  }

  pub record Reserved (input : CreateReservation) (user_id : String) (w w' : State) : Type 0 where
    pub user : User
    pub known : find_user user_id w ≡ some user
    pub listed : Listed
    pub found : Books.find_by_id input.book_id w ≡ some listed
    pub all_out : listed.book.available_copies ≤ℤ pos 0
    pub first : select (Repository.is_active_of user_id input.book_id) w.reservations ≡ []
    pub reservations :
        w'.reservations ≡ insert (new_reservation user_id input.book_id w) w.reservations
    pub rest : Untouched w w'

  -- When `create_reservation` returns, the user was known, the book was found with no copy
  -- available, the user had no active reservation of it, and an active reservation is added; the
  -- users, authors, books, loans and the cache are as they were. When it raises, the tables, the
  -- cache and the counters are as they were.
  pub create_reservation-Ends :
      (input : CreateReservation) (user_id : String) (w : State)
      → Ends
          (λ r w'. Reserved input user_id w w')
          (Unchanged w)
          (create_reservation service_bus input user_id w)
  unfolding create_reservation service_bus
  create_reservation-Ends input user_id w = elim (Option-cases (find_user user_id w)) [
    | inl no_user ↦ ground arith
    | inr (user, known) ↦ elim (Option-cases (Books.find_by_id input.book_id w)) [
      | inl no_book ↦ ground arith
      | inr (listed, found) ↦ elim (Bool-cases (ltb_ℤ (pos 0) listed.book.available_copies)) [
        | inl there ↦ ground arith
        | inr all_out ↦
            go user known listed found all_out
              (select (Repository.is_active_of user_id input.book_id) w.reservations) refl
      ]
    ]
  ]
    where
      go :
          (user : User)
          → find_user user_id w ≡ some user
          → (listed : Listed) → Books.find_by_id input.book_id w ≡ some listed
          → ltb_ℤ (pos 0) listed.book.available_copies ≡ false
          → (rows : List Reservation)
          → select (Repository.is_active_of user_id input.book_id) w.reservations ≡ rows
          → Ends
              (λ r w'. Reserved input user_id w w')
              (Unchanged w)
              (create_reservation service_bus input user_id w)
      go user known listed found all_out [] first =
          rw (known, found, all_out, first)
            (record {
              user = user;
              known = known;
              listed = listed;
              found = found;
              all_out = ground arith;
              first = first;
              reservations = ground arith;
              rest = ground arith;
            })
      go user known listed found all_out (r ∷ []) other =
          rw (known, found, all_out, other) (ground arith)
      go user known listed found all_out (r ∷ s ∷ l) other =
          rw (known, found, all_out, other) (ground arith)

  pub record ReservationCancelled (reservation_id : String) (w w' : State) : Type 0 where
    pub reservation : Reservation
    pub found : Repository.find_by_id reservation_id w ≡ some reservation
    pub active : reservation.status ≡ ReservationStatus.active
    pub reservations :
        w'.reservations
        ≡ save
            (record reservation {
              status = ReservationStatus.cancelled;
              cancelled_at = some (ext.clock w.readings);
            })
            w.reservations
    pub rest : Untouched w w'

  -- When `cancel_reservation` returns, the reservation was active and is stored as cancelled now;
  -- the users, authors, books, loans and the cache are as they were. When it raises, the tables,
  -- the cache and the counters are as they were.
  pub cancel_reservation-Ends :
      (reservation_id : String) (w : State)
      → Ends
          (λ r w'. ReservationCancelled reservation_id w w')
          (Unchanged w)
          (cancel_reservation service_bus reservation_id w)
  unfolding cancel_reservation service_bus
  cancel_reservation-Ends reservation_id w =
      elim (Option-cases (Repository.find_by_id reservation_id w)) [
        | inl no_row ↦ ground arith
        | inr (reservation, found) ↦ go reservation found reservation.status refl
      ]
    where
      go :
          (reservation : Reservation)
          → Repository.find_by_id reservation_id w ≡ some reservation
          → (status : ReservationStatus) → reservation.status ≡ status
          → Ends
              (λ r w'. ReservationCancelled reservation_id w w')
              (Unchanged w)
              (cancel_reservation service_bus reservation_id w)
      go reservation found ReservationStatus.cancelled is = ground arith
      go reservation found ReservationStatus.fulfilled is = ground arith
      go reservation found ReservationStatus.active is =
          rw (found, is)
            (record {
              reservation = reservation;
              found = found;
              active = is;
              reservations = ground arith;
              rest = ground arith;
            })
