-- ===== src/Reporting.antt =====
-- src/migration_engine/reporting: the final status, the summary text, the
-- error breakdown and its export.
pub mod Summary
pub mod Csv
pub mod Json
pub mod Formatter
pub mod Import
pub mod Recovery
pub mod Reading
pub mod Cells
pub mod Breakdown
pub mod Reasons
