-- ===== src/Reservations.antt =====
-- app/domain/reservation: the repository, the service and the controller.
pub mod Repository
pub mod Service
pub mod Effects
pub mod Controller
