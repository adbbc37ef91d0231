-- ===== src/Reports.antt =====
-- The figures that api/ui.py and api/app.py show of the stored reports.
pub mod Rows
pub mod Series
pub mod Gaps
pub mod Figures
pub mod Bucketed
pub mod Missing
