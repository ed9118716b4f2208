-- ===== src/Tests.antt =====
-- Concrete inputs, tests by evaluation, and the theorems at those inputs.
pub mod Redis
pub mod Fixture
pub mod LoanRuns
pub mod Worlds
pub mod LoanWitnesses
pub mod RaceWitnesses
pub mod InventoryWitnesses
pub mod ServiceWitnesses
pub mod ListWitnesses
pub mod WebWitnesses
pub mod UserWitnesses
pub mod ReportWitnesses
pub mod MigrationDatabases
pub mod MigrationWitnesses
