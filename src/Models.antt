-- ===== src/Models.antt =====
-- The mapped classes of app/domain/*/models, a child module for each: a record for the columns, a
-- data type for each enum, and the primary key as an instance of `Row`.
pub mod User
pub mod Author
pub mod Book
pub mod Loan
pub mod Reservation
pub mod Notification
