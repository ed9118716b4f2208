-- ===== src/Users.antt =====
-- app/domain/users: the repository, the service and the controller.
pub mod Repository
pub mod Service
pub mod Effects
pub mod Accounts
pub mod Deletion
pub mod Controller
pub mod Pages
