-- ===== src/Books.antt =====
-- app/domain/books: the repository, the service and the controller.
pub mod Repository
pub mod Service
pub mod Effects
pub mod Update
pub mod Listing
pub mod Controller
