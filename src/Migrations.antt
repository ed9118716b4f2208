-- ===== src/Migrations.antt =====
-- alembic/versions: the eleven migrations that build the schema of the database.
pub mod Schema
pub mod Operations
pub mod Tables
pub mod Versions
pub mod Kept
pub mod Upgrades
pub mod Metadata
pub mod HeadTables
pub mod Head
pub mod RoundTrip
pub mod Changes
pub mod Undo
pub mod Activity
pub mod Restored
pub mod Downgrades
pub mod Again
pub mod Fill
pub mod Admin
pub mod Entered
pub mod Seeding
pub mod SignIn
pub mod Erase
pub mod Installed
pub mod InUse
pub mod Seed
