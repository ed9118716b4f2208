-- ===== src/Loans.antt =====
-- app/domain/loans: the fine calculator, the repository, the service and the controller.
pub mod Fine
pub mod Repository
pub mod Queries
pub mod Service
pub mod Effects
pub mod FineLaws
pub mod Payment
pub mod Race
pub mod DeletedBook
pub mod Coherence
pub mod Overdue
pub mod Returning
pub mod Controller
