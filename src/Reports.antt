-- ===== src/Reports.antt =====
-- app/domain/reports: `ReportService`, the texts that it writes, and what its exports say.
pub mod Text
pub mod Csv
pub mod CsvReader
pub mod Service
pub mod Totals
pub mod Controller
