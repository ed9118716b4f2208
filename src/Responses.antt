-- ===== src/Responses.antt =====
-- The documents that the services build and cache, as the response models of
-- app/domain/*/schemas describe them.
use library_api.Prelude.{ℕ, String, Bool, Option, List}
use library_api.Prelude.Int.{ℤ}
use library_api.Datetime.{Datetime}
use library_api.Models.Loan.{LoanStatus, Cents}
use library_api.Models.Reservation.{ReservationStatus}

-- `PaginatedResponse`
pub record Page (A : Type 0) : Type 0 where
  pub items : List A
  pub total : ℕ
  pub page : ℕ
  pub size : ℕ

pub record LoanResponse : Type 0 where
  pub id : String
  pub user_id : String
  pub book_id : String
  pub loan_date : Datetime
  pub due_date : Datetime
  pub returned_at : Option Datetime
  pub cancelled_at : Option Datetime
  pub status : LoanStatus
  pub fine_amount : Cents
  pub fine_paid_at : Option Datetime
  pub fine_paid_amount : Cents
  pub current_fine_amount : Cents
  pub days_late : ℕ
  pub is_overdue : Bool
  pub renewal_count : ℕ

pub record ReturnLoanResponse : Type 0 where
  pub id : String
  pub status : LoanStatus
  pub returned_at : Option Datetime
  pub fine_amount : Cents
  pub fine_paid_at : Option Datetime
  pub fine_paid_amount : Cents
  pub days_late : ℕ

pub record CancelLoanResponse : Type 0 where
  pub id : String
  pub status : LoanStatus
  pub cancelled_at : Option Datetime

pub record PayLoanFineResponse : Type 0 where
  pub id : String
  pub fine_amount : Cents
  pub payment_amount : Cents
  pub fine_paid_amount : Cents
  pub fine_paid_at : Option Datetime

pub record RenewLoanResponse : Type 0 where
  pub id : String
  pub status : LoanStatus
  pub due_date : Datetime
  pub renewal_count : ℕ

pub record CancelReservationResponse : Type 0 where
  pub id : String
  pub status : ReservationStatus
  pub cancelled_at : Option Datetime

pub record AuthorSummary : Type 0 where
  pub id : String
  pub name : String

pub record BookResponse : Type 0 where
  pub id : String
  pub title : String
  pub isbn : String
  pub category : String
  pub total_copies : ℤ
  pub available_copies : ℤ
  pub author : AuthorSummary
  pub created_at : Datetime

-- A document as the cache stores it.
pub data Document : Type 0 where
  loan : LoanResponse → Document
  loan_page : Page LoanResponse → Document
  book : BookResponse → Document
  book_page : Page BookResponse → Document
