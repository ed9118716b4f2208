-- ===== src/Authors.antt =====
-- app/domain/authors: the repository, the service and the controller.
pub mod Repository
pub mod Service
pub mod Effects
pub mod Catalogue
pub mod Controller
